-- ===== src/Vfs/Mounts.antt =====
-- The mount table, src/fs/mtab.c: `mtab_add`, `mtab_del`, `mtab_fstab`. A call that ends the service
-- by `exit`, or that reads through NULL, has no result (`none`). There are fewer than 65535 mounts.
pub mod Unique
pub mod Added
use osz.Base.{
  ℕ, zero, suc, ◌+◌, ◌-◌, ◌^◌, Bool, true, false, not, ◌&&◌, ◌||◌, Option, none, some, List, [],
  ◌∷◌, ◌++◌, length, set, erase_idx, get_elem?, get_or, ltb, leb, ◌==◌, if◌then◌else◌, add64, sub64,
}
use osz.Base.Errno.{einval}
use osz.Base.Text.{codes, first_byte, rest_bytes, strcmp}
use osz.Fcb.{Fcb, fcb_get}
use osz.Fs.{minus_one_16, o_read, Fs}
use osz.Cache.{type_device}
use osz.Paths.{canonize}
use osz.Vfs.{Vfs, Mount, fails, entry?, set_fs, fsdrv_detect, type_file, enodev}
use osz.Vfs.Located.{enofs, mount_path}

abbrev pub enotdir : ℕ
enotdir = 13

-- An error that does not hide an earlier one
abbrev pub fails_if_none {ℓ} : {A : Type ℓ} → ℕ → A → Vfs → A × Vfs
fails_if_none e r v = if v.fs.errno == 0 then fails e r v else (r, v)

-- The entry of a device, of the devices themselves (1) or of a file.
unfoldable pub storage_entry : List ℕ → Vfs → Option ℕ
storage_entry dev v = elim (fcb_get dev v.fs.fcbs) [
  | none ↦ none
  | some fd ↦ elim (entry? fd v) [
    | none ↦ none
    | some f ↦
        if (fd == 1) || (f.type == type_device) || (f.type == type_file) then some fd else none
  ]
]

-- The entry of a directory
unfoldable pub directory_entry : List ℕ → Vfs → Option ℕ
directory_entry file v = elim (fcb_get file v.fs.fcbs) [
  | none ↦ none
  | some ff ↦ elim (entry? ff v) [ none ↦ none | some f ↦ if f.type == 1 then some ff else none ]
]

-- The index of the mount at a mount point, from index `i` on.
unfoldable pub mount_index : (ff i : ℕ) → List Mount → Option ℕ
mount_index ff i [] = none
mount_index ff i (m ∷ ms) =
    let rest = mount_index ff (suc i) ms in if m.mountpoint == ff then some i else rest

-- A change of an entry of the table of files
unfoldable pub update : ℕ → (Fcb → Fcb) → Vfs → Vfs
update i g v = elim (entry? i v) [
  | none ↦ v
  | some f ↦ set_fs v (record v.fs { fcbs = record v.fs.fcbs { fcb = set v.fs.fcbs.fcb i (g f) } })
]

abbrev pub open_entry : Fcb → Fcb
open_entry f = record f { nopen = add64 f.nopen 1 }

abbrev pub close_entry : Fcb → Fcb
close_entry f = record f { nopen = sub64 f.nopen 1 }

-- The place in the mount table: an old mount there gives up its storage, a new one opens the
-- directory.
unfoldable pub replace_mount : (i : ℕ) → Mount → Vfs → Option Mount → Vfs
replace_mount i m v none = v
replace_mount i m v (some old) = record (update old.storage close_entry v) { mtab = set v.mtab i m }

unfoldable pub place_mount : Option ℕ → Mount → Vfs → Vfs
place_mount none m v =
    let v' = update m.mountpoint open_entry v in record v' { mtab = v.mtab ++ m ∷ [] }
place_mount (some i) m v = replace_mount i m v (get_elem? v.mtab i)

-- The fields of the mount point
unfoldable pub mount_entry : (ff fd fs mode : ℕ) → Fcb → Fcb
mount_entry ff fd fs mode f =
    if ff == 1
    then record f { fs = fs; mode = o_read }
    else record f { fs = fs; mode = mode; storage = fd }

abbrev pub mode_of : ℕ → Vfs → ℕ
mode_of i v = elim (entry? i v) [ none ↦ 0 | some f ↦ f.mode ]

unfoldable pub mount : (fd ff fs : ℕ) → Vfs → Vfs
mount fd ff fs v =
    let m : Mount = record { mountpoint = ff; storage = fd; fstype = fs } in
    let v₁ = place_mount (mount_index ff 0 v.mtab) m v in
    let v₂ = update ff (mount_entry ff fd fs (mode_of fd v₁)) v₁ in update fd open_entry v₂

-- `chain`, `zeroblk` and `random` are as in `readblock`.
module _ (chain : ℕ) (zeroblk random : ℕ → List ℕ) where
  -- What follows the checks of the arguments; `again` mounts the devices, when `/` is mounted first.
  unfoldable pub mount_detected :
      (again : Vfs → Option (ℕ × Vfs)) (fd ff : ℕ) → Option (ℕ × Vfs) → Option (ℕ × Vfs)
  mount_detected again fd ff none = none
  mount_detected again fd ff (some (fs, v)) =
      let v₁ = mount fd ff fs v in
      if fs == minus_one_16
      then (if not v.rootmounted || (length v.mtab == 0)
          then none
          else some (fails enofs minus_one_16 v))
      else if (ff == 0) && not v.rootmounted
      then elim (again v₁) [
        | none ↦ none
        | some (r, v₂) ↦ some (minus_one_16, record v₂ { rootmounted = true })
      ]
      else some (minus_one_16, v₁)

  -- The body: every way ends with -1.
  unfoldable pub mount_path_on :
      (again : Vfs → Option (ℕ × Vfs)) (dev file : List ℕ) → Vfs → Option (ℕ × Vfs)
  mount_path_on again dev file v =
      if (first_byte dev == 0) || (first_byte file == 0)
      then some (fails einval minus_one_16 v)
      else elim (storage_entry dev v) [
        | none ↦ some (fails_if_none enodev minus_one_16 v)
        | some fd ↦ elim (directory_entry file v) [
          | none ↦ some (fails_if_none enotdir minus_one_16 v)
          | some ff ↦
              if ((fd == ff) && v.rootmounted) || (not (ff == 0) && (length v.mtab == 0))
              then some (fails einval minus_one_16 v)
              else mount_detected again fd ff (fsdrv_detect chain zeroblk random fd v)
        ]
      ]

  -- `n` bounds the depth of the recursion.
  unfoldable pub mtab_add : (n : ℕ) (dev file : List ℕ) → Vfs → Option (ℕ × Vfs)
  mtab_add zero dev file v = none
  mtab_add (suc n) dev file v =
      mount_path_on (mtab_add n (codes "/dev/") (codes "/dev/")) dev file v
