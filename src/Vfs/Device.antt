-- ===== src/Vfs/Device.antt =====
-- What `writeblock` of src/fs/vfs.c stores on a device `readblock` gives back.
use osz.Base.{
  ℕ, zero, suc, ◌+◌, ◌*◌, ◌%◌, ◌^◌, ◌<◌, ◌≤◌, ◌≡◌, ◌≢◌, refl, ap, ◌∙◌, sym, true, false, ◌&&◌, none,
  some, List, [], ◌∷◌, ◌++◌, length, take, drop, get_elem?, ltb, ◌==◌, u64, ◌⊎◌, inl, inr,
  length-take, arith,
}
use osz.Fcb.{Fcb}
use osz.Fs.{minus_one, o_read, o_write, has}
use osz.Devfs.{Dev}
use osz.Devfs.Kinds.{devfs_used-SameAt}
use osz.Cache.{type_device, cache_getblock, find, device_of}
use osz.Cache.Stored.{cache_getblock-cache_setblock}
use osz.Vfs.{
  Vfs, readblock, writeblock, back, cache_of, used, entry?, read_device, write_device, read_memory,
  write_memory, mem_device, memfs_major, is_bad_int,
}

-- An entry of a device that can be read and written
pub record IsDevice (fd lsn : ℕ) (f : Fcb) (d : Dev) (v : Vfs) : Type 0 where
  pub block_number : lsn ≢ minus_one
  pub in_table : entry? fd v ≡ some f
  pub readable : has f.mode o_read ≡ true
  pub writable : has f.mode o_write ≡ true
  pub is_device : f.type ≡ type_device
  pub blksize_in : (1 < f.blksize) × (f.blksize < 2 ^ 31)
  pub block_inside : (lsn + 1) * f.blksize ≤ f.filesize
  pub filesize_in : f.filesize < 2 ^ 64
  pub registered : get_elem? v.devs.dev f.inode ≡ some d

readblock_device :
    (chain : ℕ) (zeroblk random : ℕ → List ℕ) (fd lsn : ℕ) (f : Fcb) (d : Dev) (v : Vfs)
    → IsDevice fd lsn f d v
    → readblock chain zeroblk random fd lsn v ≡ read_device chain zeroblk random fd lsn f d v
unfolding readblock
readblock_device chain zeroblk random fd lsn f d v h =
    ground (arith, h.block_number, h.in_table, h.readable, h.is_device, h.registered)

writeblock_device :
    (chain fd lsn : ℕ) (blk : List ℕ) (prio : ℕ) (f : Fcb) (d : Dev) (v : Vfs)
    → IsDevice fd lsn f d v
    → writeblock chain fd lsn blk prio v ≡ write_device chain fd lsn blk prio f d v
unfolding writeblock
writeblock_device chain fd lsn blk prio f d v h =
    ground (arith, h.block_number, h.in_table, h.writable, h.is_device, h.registered)

still-IsDevice :
    (fd lsn : ℕ) (f : Fcb) (d d' : Dev) (v v' : Vfs)
    → IsDevice fd lsn f d v
    → entry? fd v' ≡ entry? fd v
    → get_elem? v'.devs.dev f.inode ≡ some d'
    → IsDevice fd lsn f d' v'
still-IsDevice fd lsn f d d' v v' h e r = record {
  block_number = h.block_number;
  in_table = e ∙ h.in_table;
  readable = h.readable;
  writable = h.writable;
  is_device = h.is_device;
  blksize_in = h.blksize_in;
  block_inside = h.block_inside;
  filesize_in = h.filesize_in;
  registered = r;
}

take_all : (n : ℕ) (a b : List ℕ) → length a ≡ n → take n (a ++ b) ≡ a
take_all zero [] b h = refl
take_all zero (x ∷ a) b h = absurd (omega arith)
take_all (suc n) [] b h = absurd (omega arith)
take_all (suc n) (x ∷ a) b h = ap (◌∷◌ x) (take_all n a b (omega arith))

drop_all : (n : ℕ) (a b : List ℕ) → length a ≡ n → drop n (a ++ b) ≡ b
drop_all zero [] b h = refl
drop_all zero (x ∷ a) b h = absurd (omega arith)
drop_all (suc n) [] b h = absurd (omega arith)
drop_all (suc n) (x ∷ a) b h = drop_all n a b (omega arith)

-- A block of bytes written into memory
written_block :
    (o bs : ℕ) (blk mem : List ℕ)
    → o ≤ length mem
    → bs ≤ length blk
    → take bs (drop o (take o mem ++ (take bs blk ++ drop (o + bs) mem))) ≡ take bs blk
written_block o bs blk mem h k =
    ap (take bs) (drop_all o (take o mem) _ (length-take o mem h))
    ∙ take_all bs (take bs blk) _ (length-take bs blk k)

-- What a device gives back
Gives : (chain : ℕ) (zeroblk random : ℕ → List ℕ) (fd lsn bs : ℕ) → List ℕ → Vfs → Type 0
Gives chain zeroblk random fd lsn bs blk v =
    (b : List ℕ) × (v' : Vfs) × (readblock chain zeroblk random fd lsn v ≡ some (some b, v'))
    × (take bs b ≡ take bs blk)

not_behind :
    (lsn bs filesize : ℕ)
    → (lsn + 1) * bs ≤ filesize
    → filesize < 2 ^ 64
    → ltb filesize (u64 ((lsn + 1) * bs)) ≡ false
not_behind lsn bs filesize h k = ground arith

start_le : (lsn bs filesize : ℕ) → (lsn + 1) * bs ≤ filesize → u64 (lsn * bs) ≤ filesize
start_le lsn bs filesize h =
    let e : (lsn + 1) * bs ≡ lsn * bs + bs = grind arith in omega (arith, e, h)

good_int : (bs : ℕ) → 1 < bs → bs < 2 ^ 31 → is_bad_int bs ≡ false
good_int bs h k = ground arith

-- The RAM disk
ramdisk-Gives :
    (chain m prio : ℕ) (zeroblk random : ℕ → List ℕ) (fd lsn : ℕ) (blk : List ℕ) (f : Fcb) (d : Dev)
    (v : Vfs)
    → IsDevice fd lsn f d v
    → d.drivertask ≡ 0
    → d.device ≡ 1
    → f.filesize ≤ length v.initrd
    → f.blksize ≤ length blk
    → (v' : Vfs) × (write_device chain fd lsn blk prio f d v ≡ some (true, v'))
      × Gives m zeroblk random fd lsn f.blksize blk v'
unfolding write_device write_memory read_device read_memory mem_device Gives
ramdisk-Gives chain m prio zeroblk random fd lsn blk f d v h t n l k =
    let (d', e', (t', n')) = devfs_used-SameAt v.devs f.inode d h.registered in
    let o = u64 (lsn * f.blksize) in
    let v' : Vfs = record (used f.inode v) {
      initrd = take o v.initrd ++ (take f.blksize blk ++ drop (o + f.blksize) v.initrd);
    } in
    let inside = not_behind lsn f.blksize f.filesize h.block_inside h.filesize_in in
    let h' = still-IsDevice fd lsn f d d' v v' h refl e' in
    (
      v',
      rw (t, n, inside) refl,
      (
        drop o v'.initrd,
        used f.inode v',
        readblock_device m zeroblk random fd lsn f d' v' h'
            ∙ rw (good_int f.blksize h.blksize_in.0 h.blksize_in.1, t' ∙ t, n' ∙ n, inside) refl,
        written_block o f.blksize blk v.initrd
            (omega (arith, l, start_le lsn f.blksize f.filesize h.block_inside)) k,
      ),
    )

in_cache :
    (fd lsn : ℕ) (f : Fcb) (d : Dev) (v : Vfs)
    → IsDevice fd lsn f d v
    → device_of fd lsn (cache_of v) ≡ some f
unfolding device_of
in_cache fd lsn f d v h = ground (arith, h.block_number, h.in_table, h.is_device)

not_memory : (n : ℕ) → n ≢ 0 → (n == memfs_major) ≡ false
not_memory n h = ground arith

-- A device with blocks of its own, by way of the cache
cached-Gives :
    (chain m prio : ℕ) (zeroblk random : ℕ → List ℕ) (fd lsn : ℕ) (blk : List ℕ) (f : Fcb) (d : Dev)
    (v : Vfs)
    → IsDevice fd lsn f d v
    → d.drivertask ≢ 0
    → fd < 2 ^ 60
    → v.cache.malloc ≢ 0
    → find chain v.cache.blocks
        (λ b. (b.fd == fd) && (b.lsn == lsn))
        0
        (v.cache.cache (lsn % v.cache.cachelines))
      ≢ none
    → (v' : Vfs) × (write_device chain fd lsn blk prio f d v ≡ some (true, v'))
      × Gives (suc m) zeroblk random fd lsn f.blksize blk v'
unfolding write_device read_device Gives back
cached-Gives chain m prio zeroblk random fd lsn blk f d v h t k n w =
    let (d', e', (t', n')) = devfs_used-SameAt v.devs f.inode d h.registered in
    let v₁ = used f.inode v in
    let inside = not_behind lsn f.blksize f.filesize h.block_inside h.filesize_in in
    let (s', stored, (s'', found), same) =
      cache_getblock-cache_setblock chain m fd lsn prio blk (cache_of v₁) f
        (in_cache fd lsn f d v h) h.blksize_in.0 inside k n w in
    let v' : Vfs = record v₁ {
      cache = s';
      fs = record v₁.fs { errno = s'.errno; ackdelayed = s'.ackdelayed };
    } in
    let h' = still-IsDevice fd lsn f d d' v v' h refl e' in
    let same' : record s' { fcb = v.fs.fcbs.fcb } ≡ s' =
      ap (λ (x : List Fcb). record s' { fcb = x }) (sym same) in
    (
      v',
      rw (not_memory d.drivertask t) (ap (back v₁) stored),
      (
        blk,
        record (used f.inode v') {
          cache = s'';
          fs = record v'.fs { errno = s''.errno; ackdelayed = s''.ackdelayed };
        },
        readblock_device (suc m) zeroblk random fd lsn f d' v' h'
            ∙ rw
                (
                  good_int f.blksize h.blksize_in.0 h.blksize_in.1,
                  not_memory d'.drivertask (λ x. t (sym t' ∙ x)),
                )
                (ap (back (used f.inode v')) (ap (cache_getblock (suc m) fd lsn) same' ∙ found)),
        refl,
      ),
    )

-- A device whose blocks `writeblock` stores: the RAM disk, whose memory holds all of it, or a device
-- that is no memory, when there is room in the heap and the walk along the chain of the block ends.
abbrev pub Stores : (chain fd lsn : ℕ) → Fcb → Dev → Vfs → Type 0
Stores chain fd lsn f d v =
    ((d.drivertask ≡ 0) × (d.device ≡ 1) × (f.filesize ≤ length v.initrd))
    ⊎ ((d.drivertask ≢ 0)
        × (fd < 2 ^ 60)
        × (v.cache.malloc ≢ 0)
        × (find chain v.cache.blocks (λ b. (b.fd == fd) && (b.lsn == lsn)) 0
              (v.cache.cache (lsn % v.cache.cachelines))
            ≢ none))

-- For a block within a device that can be read and written and that stores blocks, `writeblock`
-- returns true, and `readblock` then gives a block with the same bytes, for any bound on its walk
-- along a chain.
pub readblock-writeblock :
    (chain m prio : ℕ) (zeroblk random : ℕ → List ℕ) (fd lsn : ℕ) (blk : List ℕ) (f : Fcb) (d : Dev)
    (v : Vfs)
    → IsDevice fd lsn f d v
    → Stores chain fd lsn f d v
    → f.blksize ≤ length blk
    → (v' : Vfs) × (writeblock chain fd lsn blk prio v ≡ some (true, v'))
      × ((b : List ℕ) × (v'' : Vfs) × (readblock (suc m) zeroblk random fd lsn v'
            ≡ some (some b, v''))
          × (take f.blksize b ≡ take f.blksize blk))
unfolding Gives
readblock-writeblock chain m prio zeroblk random fd lsn blk f d v h (inl (t, n, l)) k =
    let (v', e, g) = ramdisk-Gives chain (suc m) prio zeroblk random fd lsn blk f d v h t n l k in
    (v', writeblock_device chain fd lsn blk prio f d v h ∙ e, g)
readblock-writeblock chain m prio zeroblk random fd lsn blk f d v h (inr (t, n, l, w)) k =
    let (v', e, g) = cached-Gives chain m prio zeroblk random fd lsn blk f d v h t n l w in
    (v', writeblock_device chain fd lsn blk prio f d v h ∙ e, g)
