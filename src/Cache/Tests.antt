-- ===== src/Cache/Tests.antt =====
-- Runs of cache.c on a small cache, and its theorems at this cache.
use osz.Base.{
  ℕ, ◌^◌, ◌≡◌, refl, true, false, Bool-cases, inl, inr, ◌<◌, ◌≤◌, none, some, [], ◌∷◌,
  if◌then◌else◌, ◌==◌, arith,
}
use osz.Fcb.{Fcb}
use osz.Cache.{
  cache_cleardirty, clear_block, count_out, Block, Cache, tag, device_of, find, to_front,
  get_result, set_result, cache_getblock, cache_setblock, cache_flush,
}
use osz.Devfs.{Devs, devfs_lastused, oldest, is_older, forget}
use osz.Cache.Release.{
  cache_freeblocks, release_lines, chain_index, release_chain, unchain, cache_free, count_blocks,
  free_devices, free_device,
}
use osz.Cache.Flush.{IsStored, ends, cache_flush_lem}
use osz.Cache.Chain.{cache_getblock-cache_getblock}

abbrev disk : Fcb
disk = record {
  abspath = some [];
  nopen = 1;
  type = 3;
  flags = 0;
  fs = 0;
  mode = 3;
  storage = 1;
  inode = 0;
  filesize = 65536;
  blksize = 512;
  unionlist = none;
  buf = [];
}

abbrev block : ℕ → ℕ → Block
block lsn next = record { fd = 0; lsn = lsn; blk = lsn ∷ []; next = next }

-- Line 1 holds blocks 1 and 17, at the addresses 100 and 200.
abbrev two_blocks : Cache
two_blocks = record {
  blocks = λ p. if p == 100 then block 1 200 else block 17 0;
  cache = λ i. if i == 1 then 100 else 0;
  cachelines = 16;
  malloc = 300;
  fcb = disk ∷ [];
  errno = 0;
  ackdelayed = false;
  sent = [];
  written = [];
  total = λ k. 0;
  cache_inflush = 0;
  out = λ k. 0;
  progress = [];
}

abbrev one_dev : Devs
one_dev = record {
  dev = record { fid = some 0; drivertask = 9; device = 0; recent = 1 } ∷ [];
  dev_recent = 2;
}

-- Block 17 is found behind block 1.
get_17 : (s' : Cache) × (cache_getblock 3 0 17 two_blocks ≡ some (some (17 ∷ []), s'))
unfolding cache_getblock get_result find device_of
get_17 = (_, refl)

-- A new block 33 is put in front with its priority in the upper bits.
set_33 :
    (s' : Cache) × (cache_setblock 3 0 33 (5 ∷ []) 1 two_blocks ≡ some (true, s'))
    × (s'.cache 1 ≡ 300)
unfolding cache_setblock set_result find device_of to_front
set_33 = (_, refl, refl)

disk_1 : device_of 0 1 two_blocks ≡ some disk
unfolding device_of
disk_1 = refl

disk_17 : device_of 0 17 two_blocks ≡ some disk
unfolding device_of
disk_17 = refl

cache_getblock-cache_getblock_example :
    (cache_getblock 1 0 1 two_blocks ≡ some (some (1 ∷ []), to_front 1 100 two_blocks))
    × (cache_getblock 9 0 17 (to_front 1 100 two_blocks) ≡ none)
cache_getblock-cache_getblock_example =
    cache_getblock-cache_getblock 0 9 0 1 0 17 two_blocks disk disk disk_1 refl (λ e. ground arith)
      refl disk_17 refl refl refl

-- The cache where the blocks at 100 and at all other addresses are dirty, with priorities 2 and 4.
abbrev dirty : Cache
dirty = record two_blocks {
  blocks = λ p.
      if p == 100
      then record (block 1 200) { fd = tag 0 2 }
      else record (block 17 0) { fd = tag 0 4 };
}

dirty_end : (i : ℕ) → i < 16 → ends 3 dirty.blocks (dirty.cache i) ≡ true
unfolding ends
dirty_end i h = elim (Bool-cases (i == 1)) [ inl b ↦ ground arith | inr b ↦ ground arith ]

dirty_stored :
    (c : ℕ)
    → (fd : ℕ) × ((prio : ℕ) × (((dirty.blocks c).fd ≡ tag fd prio) × (fd < 2 ^ 60) × (prio ≤ 4)))
dirty_stored c = elim (Bool-cases (c == 100)) [
  | inl b ↦ (0, (2, (ground arith, omega arith, omega arith)))
  | inr b ↦ (0, (4, (ground arith, omega arith, omega arith)))
]

dirty-IsStored : IsStored 3 dirty
dirty-IsStored = record { end = dirty_end; stored = dirty_stored }

cache_flush_lem_example : cache_flush 3 dirty ≡ some (record dirty { cache_inflush = 0 })
cache_flush_lem_example = cache_flush_lem 3 dirty dirty-IsStored

-- Two blocks wait; after block 17 was written out, block 1 is left.
clear_17 :
    (s' : Cache) × (cache_cleardirty 3 0 17
        (record two_blocks { cache_inflush = 2; total = λ k. 2 })
      ≡ some (false, s'))
    × (s'.out 0 ≡ 1)
unfolding cache_cleardirty clear_block count_out find device_of
clear_17 = (_, refl, refl)

-- Both blocks are freed, and with fewer needed the line is finished all the same.
freeblocks_all : (s : Cache) × (cache_freeblocks 3 0 1 two_blocks ≡ some (2, s)) × (s.cache 1 ≡ 0)
unfolding cache_freeblocks release_lines chain_index release_chain unchain
freeblocks_all = (_, refl, refl)

-- One of two blocks is needed, so both of the oldest device go.
cache_free-half :
    (s : Cache) × (d : Devs) × (cache_free 2 3 (two_blocks, one_dev) ≡ some (s, d))
    × (s.cache 1 ≡ 0)
unfolding cache_free count_blocks free_devices free_device cache_freeblocks release_lines
    chain_index release_chain unchain devfs_lastused oldest is_older forget
cache_free-half = (_, _, refl, refl)
