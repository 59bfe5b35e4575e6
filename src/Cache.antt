-- ===== src/Cache.antt =====
-- The block cache of the file system service, src/fs/cache.c: `cache_getblock`, `cache_setblock`,
-- `cache_flush`, `cache_cleardirty`, and in Release `cache_freeblocks` and `cache_free`.
-- A chain is linked by the `next` pointers of its blocks, so the blocks are a function of their
-- address, with 0 for NULL. The heap has room for a new block, at the address that `malloc` gives.
pub mod Chain
pub mod Stored
pub mod Flush
pub mod Release
mod Tests
use osz.Base.{
  ℕ, zero, suc, ◌+◌, ◌-◌, ◌*◌, ◌/◌, ◌%◌, ◌^◌, bit_or, Bool, true, false, not, ◌&&◌, ◌||◌, Option,
  none, some, List, [], ◌∷◌, get_elem?, ltb, leb, ◌==◌, if◌then◌else◌, u64, add64, sub64,
}
use osz.Base.Errno.{efault}
use osz.Fcb.{Fcb}

abbrev pub type_device : ℕ
type_device = 3

-- `BUFSIZ`
abbrev pub buf_siz : ℕ
buf_siz = 65536

-- `cache_t`; the contents of a block stand for the pointer to them.
pub record Block : Type 0 where
  pub fd : ℕ
  pub lsn : ℕ
  pub blk : List ℕ
  pub next : ℕ

-- `CACHE_FD` and `CACHE_PRIO`
abbrev pub cache_fd : ℕ → ℕ
cache_fd x = x % 2 ^ 60

abbrev pub cache_prio : ℕ → ℕ
cache_prio x = x / 2 ^ 60

-- `fd|((uint64_t)(prio*0xF)<<60)`: the upper four bits are those of both, the others those of `fd`.
unfoldable pub tag : (fd prio : ℕ) → ℕ
tag fd prio = bit_or (fd / 2 ^ 60) (prio * 15 % 16) * 2 ^ 60 + fd % 2 ^ 60

-- The cache lines, and what the operations leave for the caller: the error, the flag `ackdelayed`,
-- the requests sent to drivers (device, block, size), the last one first.
pub record Cache : Type 0 where
  pub blocks : ℕ → Block
  pub cache : ℕ → ℕ
  pub cachelines : ℕ
  pub malloc : ℕ
  pub fcb : List Fcb
  pub errno : ℕ
  pub ackdelayed : Bool
  pub sent : List (ℕ × ℕ × ℕ)
  -- blocks sent to be written (device, block, contents), and how many of each device
  pub written : List (ℕ × ℕ × List ℕ)
  pub total : ℕ → ℕ
  pub cache_inflush : ℕ
  -- how many blocks of a device were written out, and what the user interface was told of that
  pub out : ℕ → ℕ
  pub progress : List (ℕ × ℕ × ℕ)

-- The file control block of a device, unless a check fails.
unfoldable pub device_of : (fd lsn : ℕ) → Cache → Option Fcb
device_of fd lsn s = if lsn == 2 ^ 64 - 1 then none else elim (get_elem? s.fcb fd) [
  | none ↦ none
  | some f ↦ if f.type == type_device then some f else none
]

-- Whether the block ends behind the end of the device.
abbrev pub is_behind : ℕ → Fcb → Bool
is_behind lsn f = ltb f.filesize (u64 ((lsn + 1) * f.blksize))

-- The walk along a chain, for at most `n` blocks: the block that passes the test and the one before
-- it, or 0.
unfoldable pub find : (n : ℕ) → (ℕ → Block) → (Block → Bool) → (l c : ℕ) → Option (Option (ℕ × ℕ))
find zero bs hit l c = none
find (suc n) bs hit l c =
    let rest = find n bs hit c (bs c).next in
    if c == 0 then some none else if hit (bs c) then some (some (c, l)) else rest

abbrev pub set_block : ℕ → Block → (ℕ → Block) → ℕ → Block
set_block p b bs q = if p == q then b else bs q

-- `if(l!=NULL) l->next=c->next;`
unfoldable pub unlink : (l c : ℕ) → (ℕ → Block) → ℕ → Block
unlink l c bs = if l == 0 then bs else set_block l (record (bs l) { next = (bs c).next }) bs

-- `c->next=cache[j]; cache[j]=c;`
unfoldable pub to_front : (j c : ℕ) → Cache → Cache
to_front j c s = record s {
  blocks = set_block c (record (s.blocks c) { next = s.cache j }) s.blocks;
  cache = λ i. if i == j then c else s.cache i;
}

-- What follows the walk in `cache_getblock`: on a miss the driver is asked for the block.
unfoldable pub get_result :
    (j lsn : ℕ) → Fcb → Cache → Option (Option (ℕ × ℕ)) → Option (Option (List ℕ) × Cache)
get_result j lsn f s none = none
get_result j lsn f s (some none) = some (
  none,
  record s {
    ackdelayed = true;
    sent =
        (f.inode, lsn, if lsn == 0 && ltb f.blksize buf_siz then buf_siz else f.blksize) ∷ s.sent;
  },
)
get_result j lsn f s (some (some (c, l))) =
    some (some (s.blocks c).blk, to_front j c (record s { blocks = unlink l c s.blocks }))

-- `n` bounds the length of a chain; `none` when it is longer.
unfoldable pub cache_getblock : (n fd lsn : ℕ) → Cache → Option (Option (List ℕ) × Cache)
cache_getblock n fd lsn s =
    let j = lsn % s.cachelines in
    let walk = find n s.blocks (λ b. (cache_fd b.fd == fd) && (b.lsn == lsn)) 0 (s.cache j) in
    elim (device_of fd lsn s) [
      | none ↦ some (none, s)
      | some f ↦
          if s.cache j == 0
          then some (none, s)
          else if is_behind lsn f
          then some (none, record s { errno = efault })
          else get_result j lsn f s walk
    ]

-- The block that `cache_setblock` puts in front: the one found, or a new one.
unfoldable pub set_result :
    (j fd lsn prio : ℕ) → List ℕ → Cache → Option (Option (ℕ × ℕ)) → Option (Bool × Cache)
set_result j fd lsn prio buf s none = none
set_result j fd lsn prio buf s (some none) =
    let b : Block = record { fd = tag fd prio; lsn = lsn; blk = buf; next = s.cache j } in
    some (true, to_front j s.malloc (record s { blocks = set_block s.malloc b s.blocks }))
set_result j fd lsn prio buf s (some (some (c, l))) =
    let bs = unlink l c s.blocks in
    some (
      true,
      to_front j c
          (record s { blocks = set_block c (record (bs c) { fd = tag fd prio; blk = buf }) bs }),
    )

unfoldable pub cache_setblock : (n fd lsn : ℕ) → List ℕ → (prio : ℕ) → Cache → Option (Bool × Cache)
cache_setblock n fd lsn buf prio s =
    let j = lsn % s.cachelines in
    let walk = find n s.blocks (λ b. (b.fd == fd) && (b.lsn == lsn)) 0 (s.cache j) in
    elim (device_of fd lsn s) [
      | none ↦ some (false, s)
      | some f ↦
          if leb f.blksize 1
          then some (false, s)
          else if is_behind lsn f
          then some (false, record s { errno = efault })
          else set_result j fd lsn prio buf s walk
    ]

-- A dirty block is sent to the driver of its device; the reads of `fcb` out of range are left out.
unfoldable pub write_out : Block → Cache → Cache
write_out b s = elim (get_elem? s.fcb (cache_fd b.fd)) [
  | none ↦ s
  | some f ↦ record s {
    written = (f.inode, b.lsn, b.blk) ∷ s.written;
    total = λ k. if k == f.inode then suc (s.total k) else s.total k;
    cache_inflush = suc s.cache_inflush;
  }
]

-- The blocks of priority `p` of a chain from `c` on, at most `n` blocks.
unfoldable pub flush_chain : (n p c : ℕ) → Cache → Option Cache
flush_chain zero p c s = none
flush_chain (suc n) p c s =
    let b = s.blocks c in
    let rest = flush_chain n p b.next (if cache_prio b.fd == p then write_out b s else s) in
    if c == 0 then some s else rest

-- `k` lines from line `i` on.
unfoldable pub flush_lines : (n p k i : ℕ) → Cache → Option Cache
flush_lines n p zero i s = some s
flush_lines n p (suc k) i s = elim (flush_chain n p (s.cache i) s) [
  | none ↦ none
  | some s' ↦ flush_lines n p k (suc i) s'
]

-- `k` priorities from `p` on.
unfoldable pub flush_prios : (n k p : ℕ) → Cache → Option Cache
flush_prios n zero p s = some s
flush_prios n (suc k) p s = elim (flush_lines n p s.cachelines 0 s) [
  | none ↦ none
  | some s' ↦ flush_prios n k (suc p) s'
]

-- `BLKPRIO_CRIT` is 1 and `BLKPRIO_META` 4; `n` bounds the length of a chain.
unfoldable pub cache_flush : ℕ → Cache → Option Cache
cache_flush n s = flush_prios n 4 1 (record s { cache_inflush = 0 })

-- The block that was written out is not dirty any more.
unfoldable pub clear_block : (fd : ℕ) → Cache → Option (Option (ℕ × ℕ)) → Option Cache
clear_block fd s none = none
clear_block fd s (some none) = some s
clear_block fd s (some (some (c, l))) =
    some (record s { blocks = set_block c (record (s.blocks c) { fd = cache_fd fd }) s.blocks })

-- The counters of the device `k`: when all blocks were written out both start again.
unfoldable pub count_out : (fd k : ℕ) → Cache → Cache
count_out fd k s =
    let done = leb (s.total k) (add64 (s.out k) 1) in
    let n = if done then 0 else add64 (s.out k) 1 in
    let m = if done then 0 else s.total k in
    record s {
      out = λ i. if i == k then n else s.out i;
      total = λ i. if i == k then m else s.total i;
      progress = (fd, n, m) ∷ s.progress;
      cache_inflush = sub64 s.cache_inflush 1;
    }

-- `n` bounds the length of a chain. The result tells whether no block waits to be written any more.
unfoldable pub cache_cleardirty : (n fd lsn : ℕ) → Cache → Option (Bool × Cache)
cache_cleardirty n fd lsn s =
    let j = lsn % s.cachelines in
    let walk = find n s.blocks (λ b. (cache_fd b.fd == fd) && (b.lsn == lsn)) 0 (s.cache j) in
    elim (device_of fd lsn s) [
      | none ↦ some (false, s)
      | some f ↦ if s.cache j == 0 then some (false, s) else elim (clear_block fd s walk) [
        | none ↦ none
        | some s' ↦ let s'' = count_out fd f.inode s' in some (s''.cache_inflush == 0, s'')
      ]
    ]
