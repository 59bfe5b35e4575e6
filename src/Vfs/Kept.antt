-- ===== src/Vfs/Kept.antt =====
-- Reading a block, src/fs/vfs.c, leaves the mount table as it is.
use osz.Base.{
  get_elem?, ℕ, ◌≡◌, refl, Option, none, some, List, ◌==◌, if◌then◌else◌, if-all, elim-all, u64,
  drop, ltb, add64, ◌&&◌, ◌*◌, not,
}
use osz.Fcb.{Fcb, WriteBuf}
use osz.Fs.{Answer, driver_read, has, o_read, minus_one}
use osz.Base.Errno.{efault, einval, eacces, eperm}
use osz.Devfs.{Dev}
use osz.Cache.{Cache, cache_getblock, buf_siz, type_device}
use osz.Vfs.{
  Vfs, fails, back, cache_of, used, pending, file_block, set_bufs, read_file, read_memory,
  read_device, readblock, fsdrv_detect, MemDevice, mem_zero, mem_ramdisk, mem_random, mem_null,
  mem_unknown, mem_device, entry?, enodev, storage_of, detected, type_file,
}

-- The mounts of the state of a result, and whether `/` is mounted.
unfoldable pub KeptPair {ℓ} : {A : Type ℓ} → Vfs → A × Vfs → Type 0
KeptPair v r = (r.1.mtab ≡ v.mtab) × (r.1.rootmounted ≡ v.rootmounted)

unfoldable pub Kept {ℓ} : {A : Type ℓ} → Vfs → Option (A × Vfs) → Type 0
Kept v none = Unit {0}
Kept v (some r) = KeptPair v r

same {ℓ} :
    {A : Type ℓ} (v : Vfs) (a : A) (v' : Vfs)
    → v'.mtab ≡ v.mtab
    → v'.rootmounted ≡ v.rootmounted
    → KeptPair v (a, v')
unfolding KeptPair
same v a v' h k = (h, k)

fails-same {ℓ} : {A : Type ℓ} (e : ℕ) (a : A) (v : Vfs) → KeptPair v (fails e a v)
unfolding KeptPair
fails-same e a v = (refl, refl)

bufs-same {ℓ} :
    {A : Type ℓ} (fd : ℕ) (f : Fcb) (ws : List WriteBuf) (a : A) (v : Vfs)
    → KeptPair v (a, set_bufs fd f ws v)
unfolding KeptPair
bufs-same fd f ws a v = (refl, refl)

kept {ℓ} : {A : Type ℓ} (v : Vfs) (r : A × Vfs) → KeptPair v r → Kept v (some r)
unfolding Kept
kept v r h = h

Kept-none {ℓ} : (A : Type ℓ) (v : Vfs) → Kept {A = A} v none
unfolding Kept
Kept-none A v = tt

back-Kept {ℓ} : {A : Type ℓ} (v : Vfs) (r : Option (A × Cache)) → Kept v (back v r)
unfolding Kept KeptPair back
back-Kept v none = tt
back-Kept v (some (a, c)) = (refl, refl)

used-Kept {ℓ} : {A : Type ℓ} (i : ℕ) (v : Vfs) (r : Option (A × Vfs)) → Kept (used i v) r → Kept v r
unfolding Kept KeptPair
used-Kept i v none h = tt
used-Kept i v (some r) h = h

detected-Kept :
    (dev : ℕ) (v : Vfs) (r : Option (Option (List ℕ) × Vfs)) → Kept v r → Kept v (detected dev r)
unfolding Kept KeptPair detected
detected-Kept dev v none h = tt
detected-Kept dev v (some (none, v')) h = h
detected-Kept dev v (some (some blk, v')) h = h

module _ (chain : ℕ) (zeroblk random : ℕ → List ℕ) where
  read_memory-Kept :
      (lsn : ℕ) (f : Fcb) (m : MemDevice) (v : Vfs)
      → KeptPair v (read_memory chain zeroblk random lsn f m v)
  unfolding read_memory
  read_memory-Kept lsn f mem_null v = same v _ _ refl refl
  read_memory-Kept lsn f mem_zero v = same v _ _ refl refl
  read_memory-Kept lsn f mem_random v = same v _ _ refl refl
  read_memory-Kept lsn f mem_ramdisk v =
      if-all (KeptPair v) _ (fails efault none v) (some (drop (u64 (lsn * f.blksize)) v.initrd), v)
        (same v _ _ refl refl) (same v _ _ refl refl)
  read_memory-Kept lsn f mem_unknown v = same v _ _ refl refl

  file_block-Kept :
      (fd o e : ℕ) (f : Fcb) (a : Answer) (v : Vfs)
      → KeptPair v (file_block chain zeroblk random fd o e f a v)
  unfolding file_block
  file_block-Kept fd o e f a v =
      if-all (KeptPair v) _ _ _ (same v none _ refl refl) (same v (some _) _ refl refl)

  read_file-Kept :
      (fd lsn : ℕ) (f d : Fcb) (v : Vfs) → KeptPair v (read_file chain zeroblk random fd lsn f d v)
  unfolding read_file
  read_file-Kept fd lsn f d v =
      let bs = if (lsn == 0) && ltb d.blksize buf_siz then buf_siz else d.blksize in
      let o = u64 (lsn * bs) in
      if-all (KeptPair v) _ _ _ (fails-same einval none v) (
        elim-all (KeptPair v) (pending o (add64 o bs) f.buf) _ _
          (if-all (KeptPair v) _ _ _ (fails-same efault none v) (
            elim-all (KeptPair v) (driver_read f.fs v.fs) _ _ (bufs-same fd f _ _ v)
              (λ read. file_block-Kept fd o (add64 o bs) f (read f.storage f.inode o bs) v)))
          (λ b. same v (some b) v refl refl))

  read_device-Kept :
      (fd lsn : ℕ) (f : Fcb) (d : Dev) (v : Vfs)
      → Kept v (read_device chain zeroblk random fd lsn f d v)
  unfolding read_device
  read_device-Kept fd lsn f d v = used-Kept f.inode v _ (
      let v' = used f.inode v in
      if-all (Kept v') _ _ _ (kept v' _ (fails-same einval none v')) (
        if-all (Kept v') _ _ _ (kept v' _ (read_memory-Kept lsn f (mem_device d.device) v'))
          (back-Kept v' (cache_getblock chain fd lsn (cache_of v')))))

  readblock-Kept : (fd lsn : ℕ) (v : Vfs) → Kept v (readblock chain zeroblk random fd lsn v)
  unfolding readblock
  readblock-Kept fd lsn v =
      elim-all (Kept v) (if lsn == minus_one then none else entry? fd v) _ _
        (kept v _ (fails-same efault none v))
        (λ f. if-all (Kept v) (not (has f.mode o_read)) _ _ (kept v _ (fails-same eacces none v)) (
          if-all (Kept v) (f.type == type_file) _ _
            (if-all (Kept v) (f.storage == minus_one) _ _ (kept v _ (fails-same enodev none v)) (
              elim-all (Kept v) (storage_of f v) _ _ (Kept-none _ v) (λ d.
                if-all (Kept v) (d.type == type_device) _ _
                  (used-Kept d.inode v _ (kept _ _ (read_file-Kept fd lsn f d (used d.inode v))))
                  (kept v _ (fails-same enodev none v)))))
            (if-all (Kept v) (f.type == type_device) _ _
              (elim-all (Kept v) (get_elem? v.devs.dev f.inode) _ _
                (kept v _ (fails-same enodev none v)) (λ d. read_device-Kept fd lsn f d v))
              (kept v _ (fails-same eperm none v)))))

  pub fsdrv_detect-Kept : (fd : ℕ) (v : Vfs) → Kept v (fsdrv_detect chain zeroblk random fd v)
  unfolding fsdrv_detect
  fsdrv_detect-Kept fd v =
      if-all (Kept v) (fd == 1) _ _ (kept v _ (same v v.fs.devfsidx v refl refl))
        (detected-Kept fd v _ (readblock-Kept fd 0 v))
