-- ===== src/Fcb/Table.antt =====
-- What the table of file control blocks says about paths.
use osz.Base.{
  ℕ, zero, suc, ◌+◌, ◌<◌, ◌≡◌, refl, ◌≢◌, Option, none, some, List, [], ◌∷◌, ◌++◌, length, set,
  get_elem?, arith,
}
use osz.Fcb.{Fcb, Fcbs}

-- The path of the entry at an index.
abbrev pub path_at : List Fcb → ℕ → Option (List ℕ)
path_at [] i = none
path_at (f ∷ fs) zero = f.abspath
path_at (f ∷ fs) (suc i) = path_at fs i

-- The number of entries in use.
abbrev pub used : List Fcb → ℕ
used [] = 0
used (f ∷ fs) = (elim f.abspath [ none ↦ 0 | some p ↦ 1 ]) + used fs

-- No path has two entries, and `nfiles` counts the entries in use.
pub record IsValid (t : Fcbs) : Type 0 where
  pub unique : (i j : ℕ) (p : List ℕ) → path_at t.fcb i ≡ some p → path_at t.fcb j ≡ some p → i ≡ j
  pub counted : t.nfiles ≡ used t.fcb

pub path_at-set :
    (fs : List Fcb) (i : ℕ) (v : Fcb) → i < length fs → path_at (set fs i v) i ≡ v.abspath
path_at-set [] i v h = ground arith
path_at-set (f ∷ fs) zero v h = refl
path_at-set (f ∷ fs) (suc i) v h = path_at-set fs i v (omega arith)

pub path_at-set_ne :
    (fs : List Fcb) (i k : ℕ) (v : Fcb) → k ≢ i → path_at (set fs i v) k ≡ path_at fs k
path_at-set_ne [] i k v h = refl
path_at-set_ne (f ∷ fs) zero zero v h = absurd (h refl)
path_at-set_ne (f ∷ fs) zero (suc k) v h = refl
path_at-set_ne (f ∷ fs) (suc i) zero v h = refl
path_at-set_ne (f ∷ fs) (suc i) (suc k) v h = path_at-set_ne fs i k v (ground arith)

pub path_at-append : (fs : List Fcb) (v : Fcb) → path_at (fs ++ v ∷ []) (length fs) ≡ v.abspath
path_at-append [] v = refl
path_at-append (f ∷ fs) v = path_at-append fs v

pub get_elem?-append_ne :
    (fs : List Fcb) (k : ℕ) (v : Fcb) → k ≢ length fs → get_elem? (fs ++ v ∷ []) k ≡ get_elem? fs k
get_elem?-append_ne [] zero v h = absurd (h refl)
get_elem?-append_ne [] (suc k) v h = refl
get_elem?-append_ne (f ∷ fs) zero v h = refl
get_elem?-append_ne (f ∷ fs) (suc k) v h = get_elem?-append_ne fs k v (ground arith)

pub path_at-append_ne :
    (fs : List Fcb) (k : ℕ) (v : Fcb) → k ≢ length fs → path_at (fs ++ v ∷ []) k ≡ path_at fs k
path_at-append_ne [] zero v h = absurd (h refl)
path_at-append_ne [] (suc k) v h = refl
path_at-append_ne (f ∷ fs) zero v h = refl
path_at-append_ne (f ∷ fs) (suc k) v h = path_at-append_ne fs k v (ground arith)

-- Behind the table there is no path.
pub path_at-length : (fs : List Fcb) → path_at fs (length fs) ≡ none
path_at-length [] = refl
path_at-length (f ∷ fs) = path_at-length fs

pub used-set :
    (fs : List Fcb) (i : ℕ) (v : Fcb) (p : List ℕ)
    → i < length fs
    → path_at fs i ≡ none
    → v.abspath ≡ some p
    → used (set fs i v) ≡ suc (used fs)
used-set [] i v p h e w = ground arith
used-set (f ∷ fs) zero v p h e w = ground arith
used-set (f ∷ fs) (suc i) v p h e w = ground (arith, used-set fs i v p (omega arith) e w)

pub used-append :
    (fs : List Fcb) (v : Fcb) (p : List ℕ)
    → v.abspath ≡ some p
    → used (fs ++ v ∷ []) ≡ suc (used fs)
used-append [] v p w = ground arith
used-append (f ∷ fs) v p w = ground (arith, used-append fs v p w)

-- The path is a part of the entry.
path_at-get_elem? :
    (fs : List Fcb) (k : ℕ)
    → path_at fs k ≡ (elim (get_elem? fs k) [ none ↦ none | some f ↦ f.abspath ])
path_at-get_elem? [] k = refl
path_at-get_elem? (f ∷ fs) zero = refl
path_at-get_elem? (f ∷ fs) (suc k) = path_at-get_elem? fs k

pub path_at_cong :
    (fs gs : List Fcb) (k : ℕ) → get_elem? fs k ≡ get_elem? gs k → path_at fs k ≡ path_at gs k
path_at_cong fs gs k e = ground (arith, path_at-get_elem? fs k, path_at-get_elem? gs k)
