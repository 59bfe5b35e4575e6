-- ===== src/Fcb/Tests.antt =====
-- Runs of fcb.c on small tables, and its theorems at these tables.
use osz.Base.{
  ℕ, zero, suc, ◌≡◌, refl, ◌≢◌, Option, none, some, List, [], ◌∷◌, ◌++◌, get_elem?, arith,
}
use osz.Base.Text.{codes, strcmp}
use osz.Fcb.{
  Fcb, Fcbs, type_union, matches, get_from, fcb_get, add_from, add_at, fcb_add, keep, trim,
  del_union, fcb_del, fcb_free,
}
use osz.Fcb.Table.{IsValid, path_at}
use osz.Fcb.Add.{Added, fcb_add-Added, fcb_get-fcb_add}
use osz.Fcb.Stuck.{Stuck}
use osz.Fcb.Free.{fcb_free-Stuck}

abbrev slot : Option (List ℕ) → ℕ → ℕ → Fcb
slot path n type = record {
  abspath = path;
  nopen = n;
  type = type;
  flags = 0;
  fs = 0;
  mode = 0;
  storage = 0;
  inode = 0;
  filesize = 0;
  blksize = 0;
  unionlist = none;
  buf = [];
}

abbrev blank : Fcb
blank = slot none 0 0

-- A directory that is open, a free slot, and a file that is open.
abbrev three : Fcbs
three = record {
  fcb = slot (some (codes "/")) 1 1 ∷ blank ∷ slot (some (codes "/a")) 1 0 ∷ [];
  nfiles = 2;
}

abbrev empty_table : Fcbs
empty_table = record { fcb = []; nfiles = 0 }

abbrev root_only : Fcbs
root_only = record { fcb = slot (some (codes "/")) 1 1 ∷ []; nfiles = 1 }

-- A new file takes the free slot, and is found there.
add_b : (fcb_add blank (codes "/b") 0 three).0 ≡ 1
unfolding fcb_add add_from add_at strcmp
add_b = refl

find_b : fcb_get (codes "/b") (fcb_add blank (codes "/b") 0 three).1 ≡ some 1
unfolding fcb_add add_from add_at strcmp fcb_get get_from matches
find_b = refl

-- Nobody has the file open any more: its slot and the free one before it are given back.
delete_a : fcb_del 1 2 three ≡ some root_only
unfolding fcb_del del_union trim keep
delete_a = refl

root_only_unique :
    (i j : ℕ) (p : List ℕ)
    → path_at root_only.fcb i ≡ some p
    → path_at root_only.fcb j ≡ some p
    → i ≡ j
root_only_unique zero zero p h h' = refl
root_only_unique zero (suc j) p h h' = ground arith
root_only_unique (suc i) j p h h' = ground arith

root_only-IsValid : IsValid root_only
root_only-IsValid = record { unique = root_only_unique; counted = refl }

fcb_add-Added_example : Added (codes "/a") root_only (fcb_add blank (codes "/a") 0 root_only)
fcb_add-Added_example = fcb_add-Added blank (codes "/a") 0 root_only root_only-IsValid

no_slash : (k : ℕ) → path_at root_only.fcb k ≢ some (codes "/a" ++ 47 ∷ [])
no_slash zero e = ground arith
no_slash (suc k) e = ground arith

fcb_get-fcb_add_example :
    fcb_get (codes "/a") (fcb_add blank (codes "/a") 0 root_only).1
    ≡ some (fcb_add blank (codes "/a") 0 root_only).0
fcb_get-fcb_add_example = fcb_get-fcb_add blank 47 (97 ∷ []) 0 root_only root_only-IsValid no_slash

three_plain : (k : ℕ) (f : Fcb) → get_elem? three.fcb k ≡ some f → f.type ≢ type_union
three_plain zero f e = ground arith
three_plain (suc zero) f e = ground arith
three_plain (suc (suc zero)) f e = ground arith
three_plain (suc (suc (suc k))) f e = ground arith

three-Stuck : Stuck 1 2 three.fcb
three-Stuck = record {
  below = omega arith;
  closed = (blank, refl, refl);
  opened = (slot (some (codes "/a")) 1 0, refl, (λ e. ground arith), λ e. ground arith);
  plain = three_plain;
}

fcb_free-Stuck_example : fcb_free 100 1 three ≡ none
fcb_free-Stuck_example = fcb_free-Stuck 1 2 100 0 three three-Stuck
