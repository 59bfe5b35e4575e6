-- ===== src/Devfs.antt =====
-- The devices of the file system service and how recently each was used, src/fs/devfs.c:
-- `devfs_add`, `devfs_used`, `devfs_lastused`. The table `dev[0 .. ndev)` is a list; the `fid` -1
-- of a removed device is `none`.
pub mod Order
pub mod Kinds
pub mod Oldest
pub mod Registered
mod Tests
use osz.Base.Text.{codes, strcmp}
use osz.Fcb.{Fcb, Fcbs, fcb_add}
use osz.Fcb.Table.{path_at}
use osz.Base.{
  ℕ, zero, suc, ◌+◌, ◌*◌, add64, u64, bit_and, ◌++◌, take, get_or, ◌/◌, ◌^◌, Bool, true, false, not,
  ◌&&◌, ◌||◌, Option, none, some, List, [], ◌∷◌, map, length, get_elem?, set, ltb, ◌==◌,
  if◌then◌else◌,
}

-- The fields of `devfs_t` that these operations read or write.
pub record Dev : Type 0 where
  pub fid : Option ℕ
  pub drivertask : ℕ
  pub device : ℕ
  pub recent : ℕ

pub record Devs : Type 0 where
  pub dev : List Dev
  pub dev_recent : ℕ

abbrev pub is_some {ℓ} : {A : Type ℓ} → Option A → Bool
is_some none = false
is_some (some a) = true

-- The counter of a device after an overflow.
unfoldable pub shrink : Dev → Dev
shrink d = if is_some d.fid then record d { recent = suc (d.recent / 2 ^ 48) } else d

-- Overflow protection: all counters lose 48 bits.
unfoldable pub protect : Devs → Devs
protect s =
    if ltb 0xFFFFFFFFFFFFFFF s.dev_recent
    then record { dev = map shrink s.dev; dev_recent = s.dev_recent / 2 ^ 48 }
    else s

-- A device gets the next number.
unfoldable pub touch : ℕ → Devs → List Dev
touch idx s = elim (get_elem? s.dev idx) [
  | none ↦ s.dev
  | some d ↦ set s.dev idx (record d { recent = suc s.dev_recent })
]

unfoldable pub devfs_used : ℕ → Devs → Devs
devfs_used idx s =
    let s₁ = protect s in
    if ltb idx (length s.dev)
    then record { dev = touch idx s₁; dev_recent = suc s₁.dev_recent }
    else s

-- Whether a device is older than `k` and may be taken.
unfoldable pub is_older : Bool → ℕ → Dev → Bool
is_older all k d = is_some d.fid && ltb d.recent k && (all || not (d.recent == 0))

-- The loop of `devfs_lastused` from index `i` on: `l` is the device found so far, `k` its counter.
unfoldable pub oldest : Bool → (i l k : ℕ) → List Dev → ℕ
oldest all i l k [] = l
oldest all i l k (d ∷ ds) =
    let here = oldest all (suc i) i d.recent ds in
    let there = oldest all (suc i) l k ds in if is_older all k d then here else there

-- The write `dev[l].recent=0`; without any device it is out of bounds and left out here.
unfoldable pub forget : ℕ → List Dev → List Dev
forget l ds = elim (get_elem? ds l) [ none ↦ ds | some d ↦ set ds l (record d { recent = 0 }) ]

unfoldable pub devfs_lastused : Bool → Devs → ℕ × Devs
devfs_lastused all s =
    let l = oldest all 0 0 s.dev_recent s.dev in
    (l, if all then s else record s { dev = forget l s.dev })

-- The path of the device of a name, of which 64 bytes count.
abbrev pub dev_path : List ℕ → List ℕ
dev_path name = codes "/dev/" ++ take 64 name

-- The path of the entry of a device; `none` is a read outside the table or through NULL.
abbrev pub path_of : Dev → Fcbs → Option (List ℕ)
path_of d t = elim d.fid [ none ↦ none | some f ↦ path_at t.fcb f ]

-- The search of `devfs_add`.
unfoldable pub find_dev : (path : List ℕ) (i : ℕ) → List Dev → Fcbs → Option (Option ℕ)
find_dev path i [] t = some none
find_dev path i (d ∷ ds) t =
    let rest = find_dev path (suc i) ds t in
    elim (path_of d t) [ none ↦ none | some p ↦ if strcmp p path then some (some i) else rest ]

-- The fields that `devfs_add` writes in the entry of the device `i`; `DEVFCB` is 1.
abbrev pub describe : (i mode blksize blkcnt : ℕ) → Fcb → Fcb
describe i mode blksize blkcnt f = record f {
  nopen = add64 f.nopen 1;
  mode = bit_and mode 15;
  inode = i;
  blksize = blksize;
  filesize = u64 (blksize * blkcnt);
  storage = 1;
}

-- What the search leads to; `FCB_TYPE_DEVICE` is 3. `fresh` is what memory holds behind the table of
-- entries.
unfoldable pub register :
    (fresh : Fcb) (name : List ℕ) (drivertask device mode blksize blkcnt : ℕ)
    → Devs × Fcbs
    → Option (Option ℕ)
    → Option (ℕ × (Devs × Fcbs))
register fresh name drivertask device mode blksize blkcnt (s, t) none = none
register fresh name drivertask device mode blksize blkcnt (s, t) (some (some k)) = some (k, (s, t))
register fresh name drivertask device mode blksize blkcnt (s, t) (some none) =
    let i = length s.dev in
    let (f, t') = fcb_add fresh (dev_path name) 3 t in
    let e = describe i mode blksize blkcnt (get_or t'.fcb f fresh) in
    let recent = add64 s.dev_recent 1 in
    let d : Dev = record {
      fid = some f;
      drivertask = drivertask;
      device = device;
      recent = recent;
    } in
    some (
      i,
      (record { dev = s.dev ++ d ∷ []; dev_recent = recent }, record t' { fcb = set t'.fcb f e }),
    )

unfoldable pub devfs_add :
    (fresh : Fcb) (name : List ℕ) (drivertask device mode blksize blkcnt : ℕ)
    → Devs × Fcbs
    → Option (ℕ × (Devs × Fcbs))
devfs_add fresh name drivertask device mode blksize blkcnt (s, t) =
    register fresh name drivertask device mode blksize blkcnt (s, t)
      (find_dev (dev_path name) 0 s.dev t)
