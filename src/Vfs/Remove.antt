-- ===== src/Vfs/Remove.antt =====
-- A device that goes away, `devfs_del` of src/fs/devfs.c, with its mounts, files and blocks, and the
-- list of devices, `devfs_getdirent`.
use osz.Base.{
  ℕ, zero, suc, Bool, ◌&&◌, Option, none, some, List, [], ◌∷◌, length, drop, set, get_elem?, ltb,
  leb, ◌==◌, if◌then◌else◌,
}
use osz.Fcb.{Fcbs, fcb_del, type_pipe}
use osz.Devfs.{Dev}
use osz.Cache.Release.{cache_freeblocks}
use osz.Vfs.{Vfs, Mount, cache_of}

-- The loop over the mounts of a device; the mount behind one that is removed is not looked at.
-- `depth` bounds how deep unions hold unions.
unfoldable pub del_mounts : (depth fid : ℕ) → List Mount → Fcbs → Option (List Mount × Fcbs)
del_mounts depth fid [] t = some ([], t)
del_mounts depth fid (m ∷ []) t =
    if m.storage == fid
    then elim (fcb_del depth m.mountpoint t) [ none ↦ none | some t' ↦ some ([], t') ]
    else some (m ∷ [], t)
del_mounts depth fid (m ∷ x ∷ ms) t =
    if m.storage == fid
    then elim (fcb_del depth m.mountpoint t) [
      | none ↦ none
      | some t' ↦ elim (del_mounts depth fid ms t') [
        | none ↦ none
        | some (ms', t'') ↦ some (x ∷ ms', t'')
      ]
    ]
    else elim (del_mounts depth fid (x ∷ ms) t) [
      | none ↦ none
      | some (ms', t') ↦ some (m ∷ ms', t')
    ]

-- An entry that nobody has open is deleted; one out of bounds is a read outside the table.
unfoldable pub del_unopened : (depth i : ℕ) → Fcbs → Option Fcbs
del_unopened depth i t = elim (get_elem? t.fcb i) [
  | none ↦ none
  | some f ↦ fcb_del depth i (record t { fcb = set t.fcb i (record f { nopen = 0 }) })
]

-- The loop over the files of a device from entry `i` on, for at most `n` entries; the table does not
-- grow.
unfoldable pub del_files : (n depth fid i : ℕ) → Fcbs → Option Fcbs
del_files zero depth fid i t = some t
del_files (suc n) depth fid i t = elim (get_elem? t.fcb i) [
  | none ↦ some t
  | some f ↦
      elim (if ltb f.type type_pipe && (f.storage == fid) then del_unopened depth i t else some t) [
        | none ↦ none
        | some t' ↦ del_files n depth fid (suc i) t'
      ]
]

-- Removed devices at the end of the table are given back.
unfoldable pub trim_devs : List Dev → List Dev
trim_devs [] = []
trim_devs (d ∷ ds) = elim (trim_devs ds) [
  | [] ↦ elim d.fid [ none ↦ [] | some f ↦ d ∷ [] ]
  | x ∷ xs ↦ d ∷ x ∷ xs
]

-- The blocks of the device leave the cache, then its own entry and the device go.
unfoldable pub del_device :
    (chain depth idx fid : ℕ) → Dev → Vfs → Option (List Mount × Fcbs) → Option Vfs
del_device chain depth idx fid d v none = none
del_device chain depth idx fid d v (some (ms, t)) = elim (del_files (length t.fcb) depth fid 0 t) [
  | none ↦ none
  | some t₁ ↦ elim (cache_freeblocks chain fid 0 (record (cache_of v) { fcb = t₁.fcb })) [
    | none ↦ none
    | some (cnt, c) ↦ elim (del_unopened depth fid t₁) [
      | none ↦ none
      | some t₂ ↦ some (record v {
        fs = record v.fs { fcbs = t₂ };
        cache = c;
        mtab = ms;
        devs = record v.devs { dev = trim_devs (set v.devs.dev idx (record d { fid = none })) };
      })
    ]
  ]
]

-- A device that was removed already reads outside the table.
unfoldable pub devfs_del : (chain depth idx : ℕ) → Vfs → Option Vfs
devfs_del chain depth idx v = elim (get_elem? v.devs.dev idx) [
  | none ↦ some v
  | some d ↦ elim d.fid [
    | none ↦ none
    | some fid ↦ del_device chain depth idx fid d v (del_mounts depth fid v.mtab v.fs.fcbs)
  ]
]

-- The fields of `dirent_t` that differ: whether it is a character device stands for the type.
pub record Dirent : Type 0 where
  pub d_ino : ℕ
  pub d_filesize : ℕ
  pub is_char : Bool
  pub d_name : List ℕ

-- The first registered device of a list, and the number of entries up to it.
unfoldable pub first_device : (i s : ℕ) → List Dev → Option (ℕ × ℕ × ℕ)
first_device i s [] = none
first_device i s (d ∷ ds) =
    let rest = first_device (suc i) (suc s) ds in
    elim d.fid [ none ↦ rest | some fid ↦ some (s, i, fid) ]

-- The number of entries, and what the directory entry says; at the end 0.
unfoldable pub devfs_getdirent : (offs : ℕ) → Vfs → Option (ℕ × Option Dirent)
devfs_getdirent offs v = elim (first_device offs 1 (drop offs v.devs.dev)) [
  | none ↦ some (0, none)
  | some (s, i, fid) ↦ elim (get_elem? v.fs.fcbs.fcb fid) [
    | none ↦ none
    | some f ↦ elim f.abspath [
      | none ↦ none
      | some p ↦ some (
        s,
        some (record {
          d_ino = i;
          d_filesize = f.filesize;
          is_char = leb f.blksize 1;
          d_name = drop 5 p;
        }),
      )
    ]
  ]
]
