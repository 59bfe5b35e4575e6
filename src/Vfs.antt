-- ===== src/Vfs.antt =====
-- Blocks of devices and files, src/fs/vfs.c: `readblock`, `writeblock`, `dofsck`, and `fsdrv_detect`
-- of src/fs/fsdrv.c. A pointer to a block stands as the bytes from there on. A call that reads
-- outside a table, or through NULL, has no result (`none`). The heap has room.
pub mod Device
pub mod Kept
pub mod Check
pub mod Located
pub mod Lookup
pub mod Mounts
pub mod Remove
pub mod Fstab
mod Tests
use osz.Base.{
  ℕ, zero, suc, ◌+◌, ◌-◌, ◌*◌, ◌%◌, ◌^◌, Bool, true, false, not, ◌&&◌, ◌||◌, Option, none, some,
  List, [], ◌∷◌, ◌++◌, length, take, drop, get_elem?, ltb, leb, ◌==◌, if◌then◌else◌, u64, add64,
}
use osz.Base.Errno.{efault, eacces, einval, ebusy, erofs, eperm}
use osz.Fcb.{Fcb, WriteBuf}
use osz.Fs.{
  minus_one, minus_one_16, o_read, o_write, has, Answer, Fs, set_fcb, driver_read, driver_write,
  is_none, detect_from,
}
use osz.Devfs.{Dev, Devs, devfs_used}
use osz.Cache.{Cache, type_device, buf_siz, cache_getblock, cache_setblock}
use osz.Buffers.{end_of, fcb_write}

-- `FCB_TYPE_REG_FILE`
abbrev pub type_file : ℕ
type_file = 0

abbrev pub enodev : ℕ
enodev = 12

-- `fsck_t`
pub record Fsck : Type 0 where
  pub step : ℕ
  pub fix : Bool
  pub fs : ℕ

-- `mtab_t` without the access entries, which nothing reads.
pub record Mount : Type 0 where
  pub mountpoint : ℕ
  pub storage : ℕ
  pub fstype : ℕ

-- The state of the service; `fsck.dev` is in `fs`, and `initrd` is the memory from `_initrd_ptr` on.
pub record Vfs : Type 0 where
  pub fs : Fs
  pub devs : Devs
  pub cache : Cache
  pub initrd : List ℕ
  pub fsck : Fsck
  pub mtab : List Mount
  pub rootmounted : Bool

abbrev pub set_fs : Vfs → Fs → Vfs
set_fs v s = record v { fs = s }

-- `seterr(e); return r;`
abbrev pub fails {ℓ} : {A : Type ℓ} → ℕ → A → Vfs → A × Vfs
fails e r v = (r, record v { fs = record v.fs { errno = e } })

abbrev pub used : ℕ → Vfs → Vfs
used inode v = record v { devs = devfs_used inode v.devs }

abbrev pub entry? : ℕ → Vfs → Option Fcb
entry? fd v = get_elem? v.fs.fcbs.fcb fd

-- The cache reads the file control blocks, and leaves an error and `ackdelayed`.
abbrev pub cache_of : Vfs → Cache
cache_of v = record v.cache {
  fcb = v.fs.fcbs.fcb;
  errno = v.fs.errno;
  ackdelayed = v.fs.ackdelayed;
}

unfoldable pub back {ℓ} : {A : Type ℓ} → Vfs → Option (A × Cache) → Option (A × Vfs)
back v none = none
back v (some (a, c)) =
    some
      (a, record v { cache = c; fs = record v.fs { errno = c.errno; ackdelayed = c.ackdelayed } })

-- `MEMFS_…`
abbrev pub memfs_major : ℕ
memfs_major = 0

pub data MemDevice : Type 0 where
  mem_zero mem_ramdisk mem_random mem_null mem_unknown : MemDevice

unfoldable pub mem_device : ℕ → MemDevice
mem_device d =
    if d == 0
    then mem_zero
    else if d == 1
    then mem_ramdisk
    else if d == 2
    then mem_random
    else if d == 3
    then mem_null
    else mem_unknown

-- The device of the storage of a file is used.
abbrev pub storage_of : Fcb → Vfs → Option Fcb
storage_of f v = entry? f.storage v

-- The comparisons of two `off_t`, which are signed, by their 64 bit words. No buffer starts at an
-- offset below 0.
abbrev pub ltb_off : ℕ → ℕ → Bool
ltb_off a b = ltb (add64 a (2 ^ 63)) (add64 b (2 ^ 63))

abbrev pub leb_off : ℕ → ℕ → Bool
leb_off a b = leb (add64 a (2 ^ 63)) (add64 b (2 ^ 63))

-- A write buffer that holds the bytes from `o` to `e`.
unfoldable pub pending : (o e : ℕ) → List WriteBuf → Option (List ℕ)
pending o e [] = none
pending o e (w ∷ ws) =
    let rest = pending o e ws in
    if leb_off w.offs o && leb e (end_of w) then some (drop (o - w.offs) w.bytes) else rest

-- The bytes of a block that was read are merged with those of the first buffer that overlaps one of
-- its ends: the bytes to return, and the buffers.
unfoldable pub merge : (o e : ℕ) → List ℕ → List WriteBuf → List ℕ × List WriteBuf
merge o e blk [] = (blk, [])
merge o e blk (w ∷ ws) =
    let we = end_of w in
    let front = take (w.offs - o) blk ++ w.bytes in
    let longer = w.bytes ++ take (e - we) (drop (we - o) blk) in
    let (b, ws') = merge o e blk ws in
    if ltb_off o w.offs && ltb_off w.offs e && leb_off e we
    then (front, record { offs = o; bytes = front } ∷ ws)
    else if ltb_off w.offs o && ltb_off o we && ltb_off we e
    then (drop (o - w.offs) longer, record w { bytes = longer } ∷ ws)
    else (b, w ∷ ws')

abbrev pub set_bufs : ℕ → Fcb → List WriteBuf → Vfs → Vfs
set_bufs fd f ws v = set_fs v (set_fcb fd (record f { buf = ws }) v.fs)

-- `(int)bs<1`
abbrev pub is_bad_int : ℕ → Bool
is_bad_int bs = let b = bs % 2 ^ 32 in (b == 0) || leb (2 ^ 31) b

-- The driver that knows the first block, or -1.
unfoldable pub detected : (dev : ℕ) → Option (Option (List ℕ) × Vfs) → Option (ℕ × Vfs)
detected dev none = none
detected dev (some (none, v)) = some (minus_one_16, v)
detected dev (some (some blk, v)) =
    some (elim (detect_from dev blk 0 v.fs.fsdrv) [ none ↦ minus_one_16 | some i ↦ i % 2 ^ 16 ], v)

-- `chain` bounds the length of a chain of the cache; `zeroblk n` and `random n` are what the memory
-- of `n` bytes holds that serves as the zero block and as the random block.
module _ (chain : ℕ) (zeroblk random : ℕ → List ℕ) where
  -- A block that the driver gave, or none, merged with the buffers of the file.
  unfoldable pub file_block : (fd o e : ℕ) → Fcb → Answer → Vfs → Option (List ℕ) × Vfs
  file_block fd o e f a v =
      let v' : Vfs = set_fs v (if a.delayed then record v.fs { ackdelayed = true } else v.fs) in
      let blk : List ℕ = elim a.blk [ none ↦ zeroblk a.size | some b ↦ b ] in
      let (b, ws) = merge o e blk f.buf in
      if v'.fs.ackdelayed || (a.size == 0) then (none, v') else (some b, set_bufs fd f ws v')

  unfoldable pub read_file : (fd lsn : ℕ) → Fcb → Fcb → Vfs → Option (List ℕ) × Vfs
  read_file fd lsn f d v =
      let bs = if (lsn == 0) && ltb d.blksize buf_siz then buf_siz else d.blksize in
      let o = u64 (lsn * bs) in
      let e = add64 o bs in
      if (bs == 0) || leb (2 ^ 63) bs then fails einval none v else elim (pending o e f.buf) [
        | some b ↦ (some b, v)
        | none ↦
            if ltb f.filesize (u64 ((lsn + 1) * bs))
            then fails efault none v
            else elim (driver_read f.fs v.fs) [
              | none ↦ let (b, ws) = merge o e (zeroblk bs) f.buf in (some b, set_bufs fd f ws v)
              | some read ↦ file_block fd o e f (read f.storage f.inode o bs) v
            ]
      ]

  unfoldable pub read_memory : (lsn : ℕ) → Fcb → MemDevice → Vfs → Option (List ℕ) × Vfs
  read_memory lsn f mem_null v = (none, v)
  read_memory lsn f mem_zero v = (some (zeroblk f.blksize), v)
  read_memory lsn f mem_random v = (some (random f.blksize), v)
  read_memory lsn f mem_ramdisk v =
      if ltb f.filesize (u64 ((lsn + 1) * f.blksize))
      then fails efault none v
      else (some (drop (u64 (lsn * f.blksize)) v.initrd), v)
  read_memory lsn f mem_unknown v = fails enodev none v

  unfoldable pub read_device : (fd lsn : ℕ) → Fcb → Dev → Vfs → Option (Option (List ℕ) × Vfs)
  read_device fd lsn f d v =
      let v' = used f.inode v in
      if is_bad_int f.blksize
      then some (fails einval none v')
      else if d.drivertask == memfs_major
      then some (read_memory lsn f (mem_device d.device) v')
      else back v' (cache_getblock chain fd lsn (cache_of v'))

  unfoldable pub readblock : (fd lsn : ℕ) → Vfs → Option (Option (List ℕ) × Vfs)
  readblock fd lsn v = elim (if lsn == minus_one then none else entry? fd v) [
    | none ↦ some (fails efault none v)
    | some f ↦
        if not (has f.mode o_read)
        then some (fails eacces none v)
        else if f.type == type_file
        then (if f.storage == minus_one then some (fails enodev none v) else elim (storage_of f v) [
          | none ↦ none
          | some d ↦
              if d.type == type_device
              then some (read_file fd lsn f d (used d.inode v))
              else some (fails enodev none v)
        ])
        else if f.type == type_device
        then elim (get_elem? v.devs.dev f.inode) [
          | none ↦ some (fails enodev none v)
          | some d ↦ read_device fd lsn f d v
        ]
        else some (fails eperm none v)
  ]

  -- The little hack for the devices, which have no superblock; `DEVFCB` is 1.
  unfoldable pub fsdrv_detect : ℕ → Vfs → Option (ℕ × Vfs)
  fsdrv_detect dev v =
      if dev == 1 then some (v.fs.devfsidx, v) else detected dev (readblock dev 0 v)

-- A block in memory is replaced; the memory does not grow.
unfoldable pub write_memory : (lsn : ℕ) → List ℕ → Fcb → MemDevice → Vfs → Bool × Vfs
write_memory lsn blk f mem_null v = (true, v)
write_memory lsn blk f mem_ramdisk v =
    let o = u64 (lsn * f.blksize) in
    if ltb f.filesize (u64 ((lsn + 1) * f.blksize)) then fails efault false v else (
      true,
      record v {
        initrd = take o v.initrd ++ (take f.blksize blk ++ drop (o + f.blksize) v.initrd);
      },
    )
write_memory lsn blk f _ v = fails eacces false v

unfoldable pub write_device :
    (chain fd lsn : ℕ) → List ℕ → (prio : ℕ) → Fcb → Dev → Vfs → Option (Bool × Vfs)
write_device chain fd lsn blk prio f d v =
    let v' = used f.inode v in
    if d.drivertask == memfs_major
    then some (write_memory lsn blk f (mem_device d.device) v')
    else back v' (cache_setblock chain fd lsn blk prio (cache_of v'))

unfoldable pub in_fs {ℓ} : {A : Type ℓ} → Vfs → Option (A × Fs) → Option (A × Vfs)
in_fs v none = none
in_fs v (some (a, s)) = some (a, set_fs v s)

-- A block of a file goes to its write buffers.
unfoldable pub write_file : (fd lsn : ℕ) → List ℕ → Fcb → Fcb → Vfs → Option (Bool × Vfs)
write_file fd lsn blk f d v =
    if not (d.type == type_device)
    then some (fails enodev false v)
    else if v.fs.fsck_dev == f.storage
    then some (fails ebusy false v)
    else if not (has d.mode o_write) || is_none (driver_write f.fs v.fs)
    then some (fails erofs false v)
    else let v' = used d.inode v in
      in_fs v' (fcb_write fd (u64 (lsn * d.blksize)) (take d.blksize blk) v'.fs)

-- Without a device of that number the error is `EPERM`, set after `ENODEV`.
unfoldable pub writeblock : (chain fd lsn : ℕ) → List ℕ → (prio : ℕ) → Vfs → Option (Bool × Vfs)
writeblock chain fd lsn blk prio v = elim (if lsn == minus_one then none else entry? fd v) [
  | none ↦ some (fails efault false v)
  | some f ↦
      if not (has f.mode o_write)
      then some (fails eacces false v)
      else if f.type == type_file
      then (if f.storage == minus_one
          then some (fails enodev false v)
          else elim (storage_of f v) [ none ↦ none | some d ↦ write_file fd lsn blk f d v ])
      else if f.type == type_device
      then elim (get_elem? v.devs.dev f.inode) [
        | none ↦ some (fails eperm false v)
        | some d ↦ write_device chain fd lsn blk prio f d v
      ]
      else some (fails eperm false v)
]
