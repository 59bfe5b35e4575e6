-- ===== src/Vfs/Located.antt =====
-- What `lookup` of src/fs/vfs.c needs around the call of a driver: the mount of a path, the entry of
-- a file that was found, the path of a symbolic link, and a RAM disk that grows.
use osz.Base.{
  ℕ, zero, suc, ◌-◌, Bool, true, false, not, ◌&&◌, ◌||◌, Option, none, some, List, [], ◌∷◌, ◌++◌,
  length, take, set, get_elem?, get_or, ltb, ◌==◌, if◌then◌else◌, add64,
}
use osz.Base.Text.{codes, first_byte, rest_bytes}
use osz.Fcb.{Fcb, Fcbs, fcb_add, ends_slash, type_union}
use osz.Fs.{minus_one_16}
use osz.Cache.{type_device}
use osz.Paths.{Buffer, canonize, pathcat}
use osz.Vfs.{Vfs, Mount, entry?, set_fs, fsdrv_detect, type_file, memfs_major}

abbrev pub eagain : ℕ
eagain = 2

abbrev pub eisuni : ℕ
eisuni = 16

abbrev pub enofs : ℕ
enofs = 17

abbrev pub ebadfs : ℕ
ebadfs = 18

abbrev pub enospc : ℕ
enospc = 20

-- What `locate` of a driver answers: the status with what it left in `locate_t`. `rest` is the part
-- of the path from `loc.path` on; a union lists its members.
pub data Located : Type 0 where
  success : (type inode filesize : ℕ) → Located
  noblock notfound fserror updir fileinpath : Located
  syminpath : (target rest : List ℕ) → Located
  unioninpath : (members : List (List ℕ)) (rest : List ℕ) → Located
  nospace : (inode : ℕ) → Located

-- The functions of the driver with an index, the directories of the task, and the environment.
-- `stale p` is what a path `p` reads as after it was freed, and `mmap size` whether memory behind
-- the RAM disk of that size could be mapped. `fresh` is what memory holds behind the table of
-- entries.
pub record World : Type 0 where
  pub chain : ℕ
  pub zeroblk : ℕ → List ℕ
  pub random : ℕ → List ℕ
  pub locate : (fs fd : ℕ) (path : List ℕ) (creat : Bool) → Vfs → Located × Vfs
  pub resizefs : ℕ → Option (ℕ → Vfs → Vfs)
  pub rootdir : List ℕ
  pub workdir : List ℕ
  pub pathmax : ℕ
  pub stale : List ℕ → List ℕ
  pub mmap : ℕ → Bool
  pub fresh : Fcb

-- Whether three dots stand at one of the first `n` places.
unfoldable pub has_joker : (n : ℕ) → List ℕ → Bool
has_joker zero p = false
has_joker (suc n) p =
    let rest = has_joker n (rest_bytes p) in
    if (first_byte p == 46)
      && (first_byte (rest_bytes p) == 46)
      && (first_byte (rest_bytes (rest_bytes p)) == 46)
    then true
    else rest

-- `!memcmp(p, path, strlen(p))`
unfoldable pub is_prefix : List ℕ → List ℕ → Bool
is_prefix [] path = true
is_prefix (x ∷ p) [] = false
is_prefix (x ∷ p) (y ∷ path) = let rest = is_prefix p path in (x == y) && rest

-- The path of a mount point, NULL or not.
abbrev pub mount_path : List Fcb → Mount → Option (List ℕ)
mount_path fcb m = elim (get_elem? fcb m.mountpoint) [ none ↦ none | some f ↦ f.abspath ]

-- The loop over the mounts from index `i` on: the longest match so far is the mount `k`, of length `l`.
unfoldable pub longest : List Fcb → (path : List ℕ) → (i k l : ℕ) → List Mount → Option (ℕ × ℕ)
longest fcb path i k l [] = some (k, l)
longest fcb path i k l (m ∷ ms) =
    let here : ℕ → Option (ℕ × ℕ) = λ j. longest fcb path (suc i) i j ms in
    let there = longest fcb path (suc i) k l ms in
    elim (mount_path fcb m) [
      | none ↦ none
      | some p ↦ if ltb l (length p) && is_prefix p path then here (length p) else there
    ]

-- The mount of a path, its index and the length of its path. Without any mount there is no result.
unfoldable pub find_mount : List Fcb → (path : List ℕ) → List Mount → Option (Mount × (ℕ × ℕ))
find_mount fcb path ms = elim (longest fcb path 0 0 0 ms) [
  | none ↦ none
  | some (k, l) ↦ elim (get_elem? ms k) [ none ↦ none | some m ↦ some (m, (k, l)) ]
]

-- A path that continues behind the mount is given to the driver, the one for `/dev/` itself has no
-- end that could be found.
abbrev pub is_dev : (k : ℕ) → List ℕ → Bool
is_dev k path = (k == 0) && is_prefix (codes "/dev/") path && (length path == 5)

-- The file system of a mount, which is detected when it is not known; mount 0 is not changed.
unfoldable pub mount_fs : World → (k : ℕ) → Mount → Vfs → Option (ℕ × Vfs)
mount_fs w k m v =
    if not (m.fstype == minus_one_16)
    then some (m.fstype, v)
    else elim (fsdrv_detect w.chain w.zeroblk w.random m.storage v) [
      | none ↦ none
      | some (fs, v') ↦ some (
        fs,
        if not (k == 0) && not (fs == minus_one_16)
            then record v' { mtab = set v'.mtab k (record m { fstype = fs }) }
            else v',
      )
    ]

-- The path of a directory ends with a slash.
abbrev pub dir_path : (type : ℕ) → List ℕ → List ℕ
dir_path type path = if (type == 1) && not (ends_slash path) then path ++ 47 ∷ [] else path

-- The fields that `lookup` writes.
abbrev pub locate_entry : (fs fd type inode filesize : ℕ) (mode : ℕ) → Fcb → Fcb
locate_entry fs fd type inode filesize mode f = record f {
  fs = fs;
  mode = if (type == type_file) || (type == 1) || (type == type_union) then mode else f.mode;
  storage = fd;
  inode = inode;
  filesize = filesize;
}

-- The entry of a file that was found: a new one, or the one that was there.
unfoldable pub add_located :
    World → (path : List ℕ) (f : Option ℕ) (fs fd type inode filesize : ℕ) → Vfs → ℕ × Vfs
add_located w path f fs fd type inode filesize v =
    let (i, t) = elim f as (λ x. ℕ × Fcbs) [
      | none ↦ fcb_add w.fresh (dir_path type path) type v.fs.fcbs
      | some i ↦ (i, v.fs.fcbs)
    ] in
    let mode = (get_or t.fcb fd w.fresh).mode in
    let e = locate_entry fs fd type inode filesize mode (get_or t.fcb i w.fresh) in
    (i, set_fs v (record v.fs { fcbs = record t { fcb = set t.fcb i e } }))

-- The part of a path up to its last slash.
unfoldable pub parent : List ℕ → List ℕ
parent [] = []
parent (c ∷ p) =
    let rest = parent p in elim rest [ [] ↦ if c == 47 then c ∷ [] else [] | x ∷ q ↦ c ∷ x ∷ q ]

-- The path that a symbolic link leads to.
unfoldable pub link_path : World → (path target rest : List ℕ) → Buffer
link_path w path target rest =
    let dir = parent (take (length path - length rest - 1) path) in
    elim (if first_byte target == 47
      then canonize w.pathmax w.rootdir w.workdir target
      else pathcat w.pathmax dir target) [
        | none ↦ none
        | some none ↦ some none
        | some (some p) ↦ pathcat w.pathmax p rest
      ]

-- Whether the RAM disk can grow.
unfoldable pub can_grow : World → (fs fd re inode : ℕ) → Vfs → Bool
can_grow w fs fd re inode v = elim (entry? fd v) [
  | none ↦ false
  | some f ↦ elim (get_elem? v.devs.dev f.inode) [
    | none ↦ false
    | some d ↦
        (f.type == type_device)
        && (d.drivertask == memfs_major)
        && (d.device == 1)
        && not (elim (w.resizefs fs) [ none ↦ true | some r ↦ false ])
        && not (re == inode)
        && w.mmap f.filesize
  ]
]

unfoldable pub grow : World → (fs fd : ℕ) → Vfs → Vfs
grow w fs fd v = elim (entry? fd v) [
  | none ↦ v
  | some f ↦
      let v' = set_fs v (record v.fs {
        fcbs = record v.fs.fcbs {
          fcb = set v.fs.fcbs.fcb fd (record f { filesize = add64 f.filesize 4096 });
        };
      }) in
      elim (w.resizefs fs) [ none ↦ v' | some r ↦ r fd v' ]
]
