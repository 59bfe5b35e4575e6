-- ===== src/Cache/Chain.antt =====
-- What a hit at the head of a chain does to the chain.
use mathlib.Core.Path.{subst}
use osz.Base.{
  ℕ, zero, suc, ◌%◌, ◌≡◌, refl, ap, ◌≢◌, Bool, true, false, ◌&&◌, none, some, ◌==◌, arith,
}
use osz.Fcb.{Fcb}
use osz.Cache.{
  Block, Cache, cache_fd, device_of, is_behind, find, set_block, unlink, to_front, get_result,
  cache_getblock,
}

-- The first step of a walk finds a block.
find_first :
    (n : ℕ) (bs : ℕ → Block) (hit : Block → Bool) (l c : ℕ)
    → c ≢ 0
    → hit (bs c) ≡ true
    → find (suc n) bs hit l c ≡ some (some (c, l))
unfolding find
find_first n bs hit l c h e = ground arith

-- A walk that comes to a block which points at itself and is not the one that is looked for.
find_self :
    (n : ℕ) (bs : ℕ → Block) (hit : Block → Bool) (l c : ℕ)
    → c ≢ 0
    → (bs c).next ≡ c
    → hit (bs c) ≡ false
    → find n bs hit l c ≡ none
unfolding find
find_self zero bs hit l c h e m = refl
find_self (suc n) bs hit l c h e m =
    ground (arith, e, h, m, ap (find n bs hit c) e, find_self n bs hit c c h e m)

abbrev pub hits : (fd lsn : ℕ) → Block → Bool
hits fd lsn b = (cache_fd b.fd == fd) && (b.lsn == lsn)

-- The chain after a hit at its head.
pub hit_head :
    (n fd lsn : ℕ) (s : Cache) (f : Fcb)
    → device_of fd lsn s ≡ some f
    → is_behind lsn f ≡ false
    → s.cache (lsn % s.cachelines) ≢ 0
    → hits fd lsn (s.blocks (s.cache (lsn % s.cachelines))) ≡ true
    → cache_getblock (suc n) fd lsn s
      ≡ some (
        some (s.blocks (s.cache (lsn % s.cachelines))).blk,
        to_front (lsn % s.cachelines) (s.cache (lsn % s.cachelines)) s,
      )
unfolding cache_getblock get_result unlink
hit_head n fd lsn s f d b h e =
    ground (arith, find_first n s.blocks (hits fd lsn) 0 (s.cache (lsn % s.cachelines)) h e)

-- The next search for another block of that chain.
miss_head :
    (m fd lsn c : ℕ) (s : Cache) (f : Fcb)
    → device_of fd lsn s ≡ some f
    → is_behind lsn f ≡ false
    → c ≢ 0
    → s.cache (lsn % s.cachelines) ≡ c
    → hits fd lsn (s.blocks c) ≡ false
    → cache_getblock m fd lsn (to_front (lsn % s.cachelines) c s) ≡ none
unfolding cache_getblock get_result to_front device_of
miss_head m fd lsn c s f d b h e w =
    let j = lsn % s.cachelines in
    let bs = set_block c (record (s.blocks c) { next = s.cache j }) s.blocks in
    ground (arith, find_self m bs (hits fd lsn) 0 c h (ground arith) (ground arith))

-- `cache_getblock` on the block of a device at the head of its chain gives the contents of the
-- block and moves it in front of the chain; then a search for any other block of that chain, which
-- is within a device too, never ends: no bound on the walk is enough.
pub cache_getblock-cache_getblock :
    (n m fd lsn fd' lsn' : ℕ) (s : Cache) (f f' : Fcb)
    → device_of fd lsn s ≡ some f
    → is_behind lsn f ≡ false
    → s.cache (lsn % s.cachelines) ≢ 0
    → hits fd lsn (s.blocks (s.cache (lsn % s.cachelines))) ≡ true
    → device_of fd' lsn' s ≡ some f'
    → is_behind lsn' f' ≡ false
    → lsn' % s.cachelines ≡ lsn % s.cachelines
    → hits fd' lsn' (s.blocks (s.cache (lsn % s.cachelines))) ≡ false
    → let c = s.cache (lsn % s.cachelines) in
      (cache_getblock (suc n) fd lsn s
        ≡ some (some (s.blocks c).blk, to_front (lsn % s.cachelines) c s))
      × (cache_getblock m fd' lsn' (to_front (lsn % s.cachelines) c s) ≡ none)
cache_getblock-cache_getblock n m fd lsn fd' lsn' s f f' d b h e d' b' q w = (
  hit_head n fd lsn s f d b h e,
  subst (λ j. cache_getblock m fd' lsn' (to_front j (s.cache (lsn % s.cachelines)) s) ≡ none) q
      (miss_head m fd' lsn' (s.cache (lsn % s.cachelines)) s f' d' b' h (ap s.cache q) w),
)
