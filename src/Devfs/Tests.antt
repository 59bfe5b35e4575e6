-- ===== src/Devfs/Tests.antt =====
-- Runs of devfs.c on a small table, and its theorems at this table.
use osz.Base.{
  List, ℕ, zero, suc, ◌^◌, ◌≤◌, ◌≡◌, refl, ◌⊎◌, true, false, Option, none, some, [], ◌∷◌, get_elem?,
  arith,
}
use osz.Base.Text.{codes, strcmp}
use osz.Fcb.{Fcb, Fcbs}
use osz.Fcb.Table.{IsValid, path_at}
use osz.Devfs.Registered.{Linked, devfs_add-devfs_add}
use osz.Devfs.{
  devfs_add, register, find_dev, Dev, Devs, is_some, protect, touch, is_older, oldest, devfs_used,
  devfs_lastused,
}
use osz.Devfs.Order.{IsBounded, KeepsOrder, devfs_used-KeepsOrder}
use osz.Devfs.Oldest.{IsOldest, HasNone, devfs_lastused-IsOldest}

abbrev device : Option ℕ → ℕ → Dev
device f r = record { fid = f; drivertask = 9; device = 0; recent = r }

-- A device used twice, a removed one, and one that was used in between.
abbrev three : Devs
three = record { dev = device (some 2) 3 ∷ device none 1 ∷ device (some 4) 2 ∷ []; dev_recent = 3 }

-- The counters have grown beyond 60 bits.
abbrev late : Devs
late = record {
  dev = device (some 2) (2 ^ 60) ∷ device none 1 ∷ device (some 4) (2 ^ 59) ∷ [];
  dev_recent = 2 ^ 60;
}

oldest_three : (devfs_lastused false three).0 ≡ 2
unfolding devfs_lastused oldest is_older
oldest_three = refl

oldest_after : (devfs_lastused true (devfs_used 2 three)).0 ≡ 0
unfolding devfs_lastused oldest is_older devfs_used protect touch
oldest_after = refl

late_use : (devfs_used 2 late).dev_recent ≡ 4097
unfolding devfs_used protect
late_use = refl

late_bounded :
    (i : ℕ) (d : Dev)
    → get_elem? late.dev i ≡ some d
    → is_some d.fid ≡ true
    → d.recent ≤ late.dev_recent
late_bounded zero d e w = ground arith
late_bounded (suc zero) d e w = ground arith
late_bounded (suc (suc zero)) d e w = ground arith
late_bounded (suc (suc (suc i))) d e w = ground arith

late-IsBounded : IsBounded late
late-IsBounded = record { bounded = late_bounded }

devfs_used-KeepsOrder_example :
    ((d : Dev) × (get_elem? (devfs_used 2 late).dev 2 ≡ some d)
      × (d.recent ≡ (devfs_used 2 late).dev_recent))
    × (IsBounded (devfs_used 2 late) × KeepsOrder 2 late (devfs_used 2 late))
devfs_used-KeepsOrder_example = devfs_used-KeepsOrder 2 late (omega arith) late-IsBounded

devfs_lastused-IsOldest_example :
    let (l, s') = devfs_lastused false three in
    IsOldest false three.dev_recent three.dev l
    ⊎ ((l ≡ 0) × HasNone false three.dev_recent three.dev)
devfs_lastused-IsOldest_example = devfs_lastused-IsOldest false three

abbrev entry : Option (List ℕ) → Fcb
entry path = record {
  abspath = path;
  nopen = 1;
  type = 3;
  flags = 0;
  fs = 0;
  mode = 0;
  storage = 0;
  inode = 0;
  filesize = 0;
  blksize = 0;
  unionlist = none;
  buf = [];
}

-- The device "zero" alone.
abbrev zero_table : Fcbs
zero_table = record { fcb = entry (some (codes "/dev/zero")) ∷ []; nfiles = 1 }

abbrev zero_dev : Devs
zero_dev = record { dev = device (some 0) 1 ∷ []; dev_recent = 1 }

zero_table_unique :
    (i j : ℕ) (p : List ℕ)
    → path_at zero_table.fcb i ≡ some p
    → path_at zero_table.fcb j ≡ some p
    → i ≡ j
zero_table_unique zero zero p h h' = refl
zero_table_unique zero (suc j) p h h' = ground arith
zero_table_unique (suc i) j p h h' = ground arith

-- A new device has the next index; its size is that of its blocks.
abbrev index : Option (ℕ × (Devs × Fcbs)) → Option ℕ
index none = none
index (some (i, st)) = some i

add_null :
    index (devfs_add (entry none) (codes "null") 0 3 2 4096 0 (zero_dev, zero_table)) ≡ some 1
unfolding devfs_add register find_dev strcmp
add_null = refl

devfs_add-devfs_add_example :
    (i : ℕ) × ((s' : Devs) × ((t' : Fcbs) × ((devfs_add
              (entry none)
              (codes "null")
              0
              3
              2
              4096
              0
              (zero_dev, zero_table)
            ≡ some (i, (s', t')))
          × Linked s'.dev t'
          × IsValid t'
          × (devfs_add (entry none) (codes "null") 7 0 1 512 8 (s', t') ≡ some (i, (s', t'))))))
devfs_add-devfs_add_example =
    devfs_add-devfs_add (entry none) (codes "null") 0 3 2 4096 0 (entry none) 7 0 1 512 8 zero_dev
      zero_table (record { unique = zero_table_unique; counted = refl })
      ((codes "/dev/zero", refl), tt)
