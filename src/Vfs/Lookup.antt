-- ===== src/Vfs/Lookup.antt =====
-- From a path to an entry, `lookup` of src/fs/vfs.c. The functions of the drivers are arguments.
pub mod Failed
pub mod Longest
use osz.Base.{
  ℕ, zero, suc, ◌+◌, ◌-◌, ◌*◌, ◌%◌, ◌^◌, Bool, true, false, not, ◌&&◌, ◌||◌, Option, none, some,
  List, [], ◌∷◌, ◌++◌, length, take, drop, set, get_elem?, get_or, ltb, leb, ◌==◌, if◌then◌else◌,
  add64,
}
use osz.Base.Errno.{einval, enoent}
use osz.Base.Text.{codes, first_byte, rest_bytes}
use osz.Fcb.{Fcb, Fcbs, fcb_get, fcb_add, ends_slash, type_union}
use osz.Fs.{minus_one, minus_one_16, Driver, Fs, fsdrv_get}
use osz.Devfs.{Dev}
use osz.Cache.{type_device}
use osz.Paths.{canonize, pathcat, path_end}
use osz.Vfs.{
  Vfs, Mount, fails, entry?, set_fs, fsdrv_detect, type_file, enodev, mem_device, mem_ramdisk,
  memfs_major,
}
use osz.Vfs.Located.{
  eagain, eisuni, enofs, ebadfs, enospc, Located, success, noblock, notfound, fserror, updir,
  fileinpath, syminpath, unioninpath, nospace, World, has_joker, is_prefix, find_mount, is_dev,
  mount_fs, add_located, link_path, can_grow, grow,
}

-- A result: the entry or -1.
abbrev pub Found : Type 0
Found = Option (Option ℕ × Vfs)

-- The failsafe at the end
unfoldable pub finish : Option ℕ → Vfs → Option ℕ × Vfs
finish none v = if v.fs.errno == 0 then fails enoent none v else (none, v)
finish (some f) v = (some f, v)

-- The loop over the members of a union, until one of them has the file or `used` bytes are behind
-- the last kilobyte of the page. `again` looks a path up.
unfoldable pub in_union :
    World
    → (creat : Bool) (rest : List ℕ) (again : List ℕ → Vfs → Found) (used : ℕ)
      (members : List (List ℕ))
    → Vfs
    → Found
in_union w creat rest again used [] v = some (none, v)
in_union w creat rest again used (m ∷ ms) v =
    let next : Found → Found = λ r. elim r [
      | none ↦ none
      | some (none, v') ↦ in_union w creat rest again (used + length m + 1) ms v'
      | some (some f, v') ↦ some (some f, v')
    ] in
    if (first_byte m == 0) || leb (4096 - 1024) used
    then some (none, v)
    else if creat
    then some (fails eisuni none v)
    else if not (first_byte m == 47)
    then some (fails ebadfs none v)
    else elim (canonize w.pathmax w.rootdir w.workdir m) [
      | none ↦ none
      | some none ↦ some (none, v)
      | some (some p) ↦ elim (pathcat w.pathmax p rest) [
        | none ↦ none
        | some none ↦ some (none, v)
        | some (some q) ↦ next (again q v)
      ]
    ]

abbrev pub seterr : ℕ → Vfs → Vfs
seterr e v = set_fs v (record v.fs { errno = e })

-- What follows the loop over the members.
unfoldable pub finish? : Found → Found
finish? none = none
finish? (some (f, v)) = some (finish f v)

-- What follows `locate`, with the entry `f` there was: `again` starts over with a value for `re`.
unfoldable pub dispatch :
    World
    → (creat : Bool) (again : ℕ → List ℕ → Vfs → Found) (path abspath : List ℕ) (f : Option ℕ)
      (fs fd re : ℕ)
    → Located
    → Vfs
    → Found
dispatch w creat again path abspath f fs fd re (success type inode filesize) v =
    let (i, v') = add_located w abspath f fs fd type inode filesize v in some (some i, v')
dispatch w creat again path abspath f fs fd re notfound v = some (finish f (seterr enoent v))
dispatch w creat again path abspath f fs fd re fserror v = some (finish f (seterr ebadfs v))
dispatch w creat again path abspath f fs fd re (syminpath target rest) v =
    elim (link_path w abspath target rest) [
      | none ↦ none
      | some none ↦ some (finish f v)
      | some (some p) ↦ again re (w.stale p) v
    ]
dispatch w creat again path abspath none fs fd re (unioninpath members rest) v =
    finish? (in_union w creat rest (again 0) 0 members v)
dispatch w creat again path abspath f fs fd re (nospace inode) v =
    if can_grow w fs fd re inode v
    then again inode path (grow w fs fd v)
    else some (finish f (seterr enospc v))
dispatch w creat again path abspath f fs fd re _ v = some (finish f v)

abbrev pub can_store : ℕ → Vfs → Bool
can_store fd v = elim (entry? fd v) [
  | none ↦ false
  | some d ↦ (d.type == type_device) || (d.type == type_file)
]

-- Whether the driver has a `locate`; it is in the table.
abbrev pub has_locate : ℕ → Vfs → Bool
has_locate fs v = elim (get_elem? v.fs.fsdrv fs) [ none ↦ false | some d ↦ d.has_locate ]

-- The driver of the file system is asked for the path behind the mount, of length `l`.
unfoldable pub ask_driver :
    World
    → (creat : Bool) (again : ℕ → List ℕ → Vfs → Found) (path abspath : List ℕ) (f : Option ℕ)
      (l fd re : ℕ)
    → Option (ℕ × Vfs)
    → Found
ask_driver w creat again path abspath f l fd re none = none
ask_driver w creat again path abspath f l fd re (some (fs, v)) =
    let (answer, v') = w.locate fs fd (drop l abspath) creat v in
    if (fs == minus_one_16) || not (has_locate fs v)
    then some (fails enofs none v)
    else if v.fs.fsck_dev == fd
    then some (fails eagain none v)
    else if v'.fs.ackdelayed
    then some (none, v')
    else dispatch w creat again path abspath f fs fd re answer v'

-- A path without an entry; an entry of `/` with the inode 0 is located all the same.
unfoldable pub locate_path :
    World
    → (creat : Bool) (again : ℕ → List ℕ → Vfs → Found) (path abspath : List ℕ) (f : Option ℕ)
      (re : ℕ)
    → Vfs
    → Found
locate_path w creat again path abspath f re v = elim (find_mount v.fs.fcbs.fcb abspath v.mtab) [
  | none ↦ none
  | some (m, (k, l)) ↦
      if is_dev k abspath
      then none
      else if not (can_store m.storage v)
      then some (fails enodev none v)
      else ask_driver w creat again path abspath f l m.storage re (mount_fs w k m v)
]

abbrev pub is_unread_root : ℕ → Vfs → Bool
is_unread_root i v = elim (entry? i v) [ none ↦ false | some f ↦ (i == 0) && (f.inode == 0) ]

-- The body with an absolute path.
unfoldable pub lookup_abs :
    World
    → (creat : Bool) (again : ℕ → List ℕ → Vfs → Found) (path abspath : List ℕ) (re : ℕ) → Vfs
    → Found
lookup_abs w creat again path abspath re v =
    if creat && ltb 4 (length abspath) && has_joker (length abspath - 3) abspath
    then some (fails enoent none v)
    else elim (fcb_get abspath v.fs.fcbs) [
      | none ↦ locate_path w creat again path abspath none re v
      | some i ↦
          if is_unread_root i v
          then locate_path w creat again path abspath (some i) re v
          else some (some i, v)
    ]

-- `n` bounds how often a path is looked up again; `re` is 0 at first.
unfoldable pub lookup : (n : ℕ) → World → (re : ℕ) (path : List ℕ) (creat : Bool) → Vfs → Found
lookup zero w re path creat v = none
lookup (suc n) w re [] creat v = some (fails einval none v)
lookup (suc n) w re (c ∷ path) creat v = elim (canonize w.pathmax w.rootdir w.workdir (c ∷ path)) [
  | none ↦ none
  | some none ↦ some (fails enoent none v)
  | some (some abspath) ↦
      lookup_abs w creat (λ re' p v'. lookup n w re' p creat v') (c ∷ path) abspath re v
]
