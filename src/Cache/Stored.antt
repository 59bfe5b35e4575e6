-- ===== src/Cache/Stored.antt =====
-- What `cache_setblock` of src/fs/cache.c stores `cache_getblock` gives back.
use osz.Base.{
  ℕ, zero, suc, ◌%◌, ◌^◌, ◌<◌, ◌≡◌, ◌≢◌, refl, ap, ◌∙◌, sym, Bool, true, false, ◌&&◌, Option, none,
  some, List, leb, ◌==◌, inl, inr, Bool-cases, arith,
}
use osz.Fcb.{Fcb}
use osz.Cache.{
  Cache, Block, cache_getblock, cache_setblock, cache_fd, tag, find, device_of, is_behind, unlink,
  to_front, set_block, set_result,
}
use osz.Cache.Chain.{hits, hit_head}

tag-fd : (fd prio : ℕ) → fd < 2 ^ 60 → cache_fd (tag fd prio) ≡ fd
unfolding tag
tag-fd fd prio h = ground arith

-- A walk stops at a block that passes the test.
find_hit :
    (n : ℕ) (bs : ℕ → Block) (hit : Block → Bool) (l c c' l' : ℕ)
    → find n bs hit l c ≡ some (some (c', l'))
    → (c' ≢ 0) × (hit (bs c') ≡ true)
unfolding find
find_hit zero bs hit l c c' l' e = absurd (ground arith)
find_hit (suc n) bs hit l c c' l' e = elim (Bool-cases (c == 0)) [
  | inl z ↦ absurd (ground arith)
  | inr z ↦ elim (Bool-cases (hit (bs c))) [
    | inl h ↦
        let q : c ≡ c' = ground arith in
        (λ k. absurd (ground (arith, z, q, k)), ap (λ d. hit (bs d)) (sym q) ∙ h)
    | inr h ↦ find_hit n bs hit c (bs c).next c' l' (ground arith)
  ]
]

unlink-lsn : (l c q : ℕ) (bs : ℕ → Block) → (unlink l c bs q).lsn ≡ (bs q).lsn
unfolding unlink
unlink-lsn l c q bs = elim (Bool-cases (l == 0)) [
  | inl e ↦ rw e refl
  | inr e ↦ elim (Bool-cases (l == q)) [ inl h ↦ ground arith | inr h ↦ rw (e, h) refl ]
]

-- The block in front of the chain
IsFront : (fd lsn : ℕ) → List ℕ → Cache → Type 0
IsFront fd lsn buf s =
    (s.cache (lsn % s.cachelines) ≢ 0)
    × (hits fd lsn (s.blocks (s.cache (lsn % s.cachelines))) ≡ true)
    × ((s.blocks (s.cache (lsn % s.cachelines))).blk ≡ buf)

IsFront-get :
    (m fd lsn : ℕ) (buf : List ℕ) (s : Cache) (f : Fcb)
    → device_of fd lsn s ≡ some f
    → is_behind lsn f ≡ false
    → IsFront fd lsn buf s
    → (s' : Cache) × (cache_getblock (suc m) fd lsn s ≡ some (some buf, s'))
unfolding IsFront
IsFront-get m fd lsn buf s f d b (n, h, e) = (
  _,
  hit_head m fd lsn s f d b n h
      ∙ ap (λ x. some (some x, to_front (lsn % s.cachelines) (s.cache (lsn % s.cachelines)) s)) e,
)

==_self : (n : ℕ) → (n == n) ≡ true
==_self n = ground arith

set_block_self : (p : ℕ) (b : Block) (bs : ℕ → Block) → set_block p b bs p ≡ b
set_block_self p b bs = rw (==_self p) refl

-- A block put in front of its chain, after it was written.
to_front-IsFront :
    (fd lsn c : ℕ) (b : Block) (bs : ℕ → Block) (s : Cache)
    → c ≢ 0
    → cache_fd b.fd ≡ fd
    → b.lsn ≡ lsn
    → IsFront fd lsn b.blk
        (to_front (lsn % s.cachelines) c (record s { blocks = set_block c b bs }))
unfolding IsFront to_front
to_front-IsFront fd lsn c b bs s n e q =
    rw (==_self (lsn % s.cachelines), ==_self c) (n, ground (arith, e, q), refl)

-- What follows the walk of `cache_setblock`
set_result-IsFront :
    (n fd lsn prio : ℕ) (buf : List ℕ) (s : Cache) (o : Option (Option (ℕ × ℕ)))
    → fd < 2 ^ 60
    → s.malloc ≢ 0
    → find n s.blocks (λ b. (b.fd == fd) && (b.lsn == lsn)) 0 (s.cache (lsn % s.cachelines)) ≡ o
    → o ≢ none
    → (s' : Cache) × (set_result (lsn % s.cachelines) fd lsn prio buf s o ≡ some (true, s'))
      × IsFront fd lsn buf s'
      × (s'.fcb ≡ s.fcb)
unfolding set_result to_front
set_result-IsFront n fd lsn prio buf s none h m e k = absurd (k refl)
set_result-IsFront n fd lsn prio buf s (some none) h m e k =
    let b : Block = record {
      fd = tag fd prio;
      lsn = lsn;
      blk = buf;
      next = s.cache (lsn % s.cachelines);
    } in
    (_, refl, to_front-IsFront fd lsn s.malloc b s.blocks s m (tag-fd fd prio h) refl, refl)
set_result-IsFront n fd lsn prio buf s (some (some (c, l))) h m e k =
    let u = unlink l c s.blocks in
    let b : Block = record (u c) { fd = tag fd prio; blk = buf } in
    let (n, hit) =
      find_hit n s.blocks (λ b. (b.fd == fd) && (b.lsn == lsn)) 0 (s.cache (lsn % s.cachelines)) c l
        e in
    let q : (u c).lsn ≡ lsn = unlink-lsn l c c s.blocks ∙ ground arith in
    (_, refl, to_front-IsFront fd lsn c b u s n (tag-fd fd prio h) q, refl)

device_of_same :
    (fd lsn : ℕ) (s s' : Cache) → s'.fcb ≡ s.fcb → device_of fd lsn s' ≡ device_of fd lsn s
unfolding device_of
device_of_same fd lsn s s' e = ap (λ (fs : List Fcb). device_of fd lsn (record s { fcb = fs })) e

leb_big : (n : ℕ) → 1 < n → leb n 1 ≡ false
leb_big n h = ground arith

-- `cache_setblock` of a block within a device, whose walk along the chain ends, stores the block,
-- and `cache_getblock` then gives it back, for any bound on its walk; the entries of the files stay.
pub cache_getblock-cache_setblock :
    (n m fd lsn prio : ℕ) (buf : List ℕ) (s : Cache) (f : Fcb)
    → device_of fd lsn s ≡ some f
    → 1 < f.blksize
    → is_behind lsn f ≡ false
    → fd < 2 ^ 60
    → s.malloc ≢ 0
    → find n s.blocks (λ b. (b.fd == fd) && (b.lsn == lsn)) 0 (s.cache (lsn % s.cachelines)) ≢ none
    → (s' : Cache) × (cache_setblock n fd lsn buf prio s ≡ some (true, s'))
      × ((s'' : Cache) × (cache_getblock (suc m) fd lsn s' ≡ some (some buf, s'')))
      × (s'.fcb ≡ s.fcb)
unfolding cache_setblock
cache_getblock-cache_setblock n m fd lsn prio buf s f d z b h k w =
    let (s', e, front, same) = set_result-IsFront n fd lsn prio buf s _ h k refl w in
    (
      s',
      ground (arith, e),
      IsFront-get m fd lsn buf s' f (device_of_same fd lsn s s' same ∙ d) b front,
      same,
    )
