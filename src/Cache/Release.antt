-- ===== src/Cache/Release.antt =====
-- Blocks given back, src/fs/cache.c: `cache_freeblocks`, with room for its index, and `cache_free`.
use osz.Base.{
  ℕ, zero, suc, ◌+◌, ◌-◌, ◌/◌, Bool, false, not, ◌||◌, Option, none, some, List, [], ◌∷◌, length,
  get_elem?, ltb, leb, ◌==◌, if◌then◌else◌,
}
use osz.Devfs.{Dev, Devs, devfs_lastused}
use osz.Cache.{Block, Cache, cache_fd, type_device, set_block}

-- The index of a chain: the addresses of its blocks, for at most `n`.
unfoldable pub chain_index : (n : ℕ) → (ℕ → Block) → (c : ℕ) → Option (List ℕ)
chain_index zero bs c = none
chain_index (suc n) bs c =
    let rest = chain_index n bs (bs c).next in
    if c == 0 then some [] else elim rest [ none ↦ none | some r ↦ some (c ∷ r) ]

-- A block is taken out behind the block `before`, or at the head of line `j`.
unfoldable pub unchain : (j : ℕ) (before : Option ℕ) (c : ℕ) → Cache → Cache
unchain j none c s = record s { cache = λ i. if i == j then (s.blocks c).next else s.cache i }
unchain j (some l) c s = record s {
  blocks = set_block l (record (s.blocks l) { next = (s.blocks c).next }) s.blocks;
}

-- The blocks of a device in an index, the last one first, and their number added to `cnt`.
unfoldable pub release_chain :
    (fd j : ℕ) (before : Option ℕ) → List ℕ → (cnt : ℕ) → Cache → ℕ × Cache
release_chain fd j before [] cnt s = (cnt, s)
release_chain fd j before (c ∷ r) cnt s =
    let (cnt', s') = release_chain fd j (some c) r cnt s in
    if cache_fd (s'.blocks c).fd == fd then (suc cnt', unchain j before c s') else (cnt', s')

-- The lines below `k`, the last one first, until enough blocks are free.
unfoldable pub release_lines : (n fd needed k cnt : ℕ) → Cache → Option (ℕ × Cache)
release_lines n fd needed zero cnt s = some (cnt, s)
release_lines n fd needed (suc j) cnt s =
    if (needed == 0) || ltb cnt needed
    then elim (chain_index n s.blocks (s.cache j)) [
      | none ↦ none
      | some r ↦
          let (cnt', s') = release_chain fd j none r cnt s in release_lines n fd needed j cnt' s'
    ]
    else some (cnt, s)

-- `n` bounds the length of a chain; with `needed` 0 all blocks of the device are freed.
unfoldable pub cache_freeblocks : (n fd needed : ℕ) → Cache → Option (ℕ × Cache)
cache_freeblocks n fd needed s = elim (get_elem? s.fcb fd) [
  | none ↦ some (0, s)
  | some f ↦
      if not (f.type == type_device) || leb f.blksize 1
      then some (0, s)
      else release_lines n fd needed s.cachelines 0 s
]

-- The number of blocks in the lines below `k`.
unfoldable pub count_blocks : (n k total : ℕ) → Cache → Option ℕ
count_blocks n zero total s = some total
count_blocks n (suc j) total s = elim (chain_index n s.blocks (s.cache j)) [
  | none ↦ none
  | some r ↦ count_blocks n j (total + length r) s
]

-- The blocks of a device; the `fid` -1 is no device.
unfoldable pub free_device : (n needed : ℕ) → Option Dev → Cache → Option (ℕ × Cache)
free_device n needed none s = none
free_device n needed (some d) s = elim d.fid [
  | none ↦ some (0, s)
  | some fd ↦ cache_freeblocks n fd needed s
]

-- The loop, for at most `turns` turns; `k` is the device of the turn before, or none.
unfoldable pub free_devices :
    (turns n total freed : ℕ) (k : Option ℕ) → Cache × Devs → Option (Cache × Devs)
free_devices zero n total freed k (s, devs) = none
free_devices (suc turns) n total freed k (s, devs) =
    let (i, devs') = devfs_lastused false devs in
    let again : Bool = elim k [ none ↦ false | some j ↦ i == j ] in
    if not (ltb freed total)
    then some (s, devs)
    else elim (free_device n (total - freed) (get_elem? devs'.dev i) s) [
      | none ↦ none
      | some (cnt, s') ↦
          if again
          then some (s', devs')
          else free_devices turns n total (freed + cnt) (some i) (s', devs')
    ]

-- At least half of the blocks are freed, those of the devices not used for long first.
unfoldable pub cache_free : (turns n : ℕ) → Cache × Devs → Option (Cache × Devs)
cache_free turns n (s, devs) = elim (count_blocks n s.cachelines 0 s) [
  | none ↦ none
  | some total ↦ free_devices turns n (total / 2) 0 none (s, devs)
]
