-- ===== src/Devfs/Registered.antt =====
-- Devices that were added are found again by their names.
use osz.Base.{
  ℕ, zero, suc, ◌+◌, ◌≡◌, ◌≢◌, refl, sym, ap, ◌∙◌, Option, none, some, List, [], ◌∷◌, ◌++◌, length,
  get_or, set, Bool-cases, Option-cases, inl, inr, ◌==◌, add64, arith, ==_iff,
}
use mathlib.Core.Path.{subst}
use osz.Base.Text.{strcmp, strcmp_self}
use osz.Fcb.{Fcb, Fcbs, fcb_add}
use osz.Fcb.Table.{path_at, used, IsValid, path_at_cong}
use osz.Fcb.Add.{Added, fcb_add-Added}
use osz.Devfs.{Dev, Devs, dev_path, path_of, find_dev, describe, register, devfs_add}

-- Every device of the list has an entry with a path.
abbrev pub Linked : List Dev → Fcbs → Type 0
Linked [] t = Unit {0}
Linked (d ∷ ds) t = ((p : List ℕ) × (path_of d t ≡ some p)) × Linked ds t

-- An entry with a path keeps it.
abbrev Keeps : Fcbs → Fcbs → Type 0
Keeps t t' = (k : ℕ) (p : List ℕ) → path_at t.fcb k ≡ some p → path_at t'.fcb k ≡ some p

path_of-Keeps :
    (t t' : Fcbs) (d : Dev) (o : Option ℕ) (p : List ℕ)
    → Keeps t t'
    → d.fid ≡ o
    → path_of d t ≡ some p
    → path_of d t' ≡ some p
path_of-Keeps t t' d none p k e h = ground (arith, h)
path_of-Keeps t t' d (some f) p k e h = ground (arith, k f p (ground arith))

Linked-Keeps : (t t' : Fcbs) (ds : List Dev) → Keeps t t' → Linked ds t → Linked ds t'
Linked-Keeps t t' [] k l = tt
Linked-Keeps t t' (d ∷ ds) k ((p, e), l) =
    ((p, path_of-Keeps t t' d d.fid p k refl e), Linked-Keeps t t' ds k l)

Linked-append :
    (t : Fcbs) (ds : List Dev) (d : Dev) (p : List ℕ)
    → Linked ds t
    → path_of d t ≡ some p
    → Linked (ds ++ d ∷ []) t
Linked-append t [] d p l e = ((p, e), tt)
Linked-append t (d' ∷ ds) d p (x, l) e = (x, Linked-append t ds d p l e)

find_dev-Linked :
    (path : List ℕ) (i : ℕ) (ds : List Dev) (t : Fcbs) → Linked ds t → find_dev path i ds t ≢ none
unfolding find_dev
find_dev-Linked path i [] t l e = ground arith
find_dev-Linked path i (d ∷ ds) t ((p, h), l) e =
    ground (arith, find_dev-Linked path (suc i) ds t l)

-- A new device behind those among which there is none of its path is found there.
find_dev-append :
    (path : List ℕ) (i : ℕ) (ds : List Dev) (d : Dev) (t t' : Fcbs)
    → Linked ds t
    → Keeps t t'
    → path_of d t' ≡ some path
    → find_dev path i ds t ≡ some none
    → find_dev path i (ds ++ d ∷ []) t' ≡ some (some (i + length ds))
unfolding find_dev
find_dev-append path i [] d t t' l k h e = ground (arith, strcmp_self path)
find_dev-append path i (d' ∷ ds) d t t' ((p, w), l) k h e =
    let w' = path_of-Keeps t t' d' d'.fid p k refl w in
    elim (Bool-cases (strcmp p path)) [
      | inl b ↦ absurd (ground arith)
      | inr b ↦
          let e' : find_dev path (suc i) ds t ≡ some none = ground arith in
          ground (arith, find_dev-append path (suc i) ds d t t' l k h e')
    ]

-- An entry that is written with the same path.
path_at-set_same :
    (fs : List Fcb) (f k : ℕ) (v : Fcb)
    → v.abspath ≡ path_at fs f
    → path_at (set fs f v) k ≡ path_at fs k
path_at-set_same [] f k v e = refl
path_at-set_same (g ∷ fs) zero zero v e = e
path_at-set_same (g ∷ fs) zero (suc k) v e = refl
path_at-set_same (g ∷ fs) (suc f) zero v e = refl
path_at-set_same (g ∷ fs) (suc f) (suc k) v e = path_at-set_same fs f k v e

used-set_same :
    (fs : List Fcb) (f : ℕ) (v : Fcb) → v.abspath ≡ path_at fs f → used (set fs f v) ≡ used fs
used-set_same [] f v e = refl
used-set_same (g ∷ fs) zero v e = ground arith
used-set_same (g ∷ fs) (suc f) v e = ground (arith, used-set_same fs f v e)

abspath-get_or :
    (fs : List Fcb) (f : ℕ) (d : Fcb) (p : List ℕ)
    → path_at fs f ≡ some p
    → (get_or fs f d).abspath ≡ path_at fs f
abspath-get_or [] f d p e = ground arith
abspath-get_or (g ∷ fs) zero d p e = refl
abspath-get_or (g ∷ fs) (suc f) d p e = abspath-get_or fs f d p e

IsValid-set :
    (t : Fcbs) (f : ℕ) (v : Fcb)
    → v.abspath ≡ path_at t.fcb f
    → IsValid t
    → IsValid (record t { fcb = set t.fcb f v })
IsValid-set t f v e w = record {
  unique = λ i j p a b.
      w.unique i j p (sym (path_at-set_same t.fcb f i v e) ∙ a)
        (sym (path_at-set_same t.fcb f j v e) ∙ b);
  counted = w.counted ∙ sym (used-set_same t.fcb f v e);
}

Keeps-Added : (path : List ℕ) (t : Fcbs) (r : ℕ × Fcbs) → Added path t r → Keeps t r.1
Keeps-Added path t (i, t') (e, v, same, inl q) k p h =
    subst (λ (x : Fcbs). path_at x.fcb k ≡ some p) (sym q) h
Keeps-Added path t (i, t') (e, v, same, inr (a, b, c)) k p h = elim (Bool-cases (k == i)) [
  | inl d ↦ absurd (ground (arith, ap (path_at t.fcb) ((==_iff k i).0 d)))
  | inr d ↦ path_at_cong t'.fcb t.fcb k (same k (ground arith)) ∙ h
]

-- The entry of a new device, in the tables after the call.
module _ (fresh : Fcb) (name : List ℕ) (drivertask device mode blksize blkcnt : ℕ) where
  found_lem :
      (s : Devs) (t : Fcbs) (k : ℕ)
      → find_dev (dev_path name) 0 s.dev t ≡ some (some k)
      → devfs_add fresh name drivertask device mode blksize blkcnt (s, t) ≡ some (k, (s, t))
  unfolding devfs_add register
  found_lem s t k e = ap (register fresh name drivertask device mode blksize blkcnt (s, t)) e

  -- The tables after a call for a new device that has the entry `f`.
  abbrev new_dev : Devs → ℕ → Dev
  new_dev s f = record {
    fid = some f;
    drivertask = drivertask;
    device = device;
    recent = add64 s.dev_recent 1;
  }

  abbrev added : Devs → ℕ × Fcbs → Devs × Fcbs
  added s (f, t') = (
    record { dev = s.dev ++ new_dev s f ∷ []; dev_recent = add64 s.dev_recent 1 },
    record t' {
      fcb = set t'.fcb f (describe (length s.dev) mode blksize blkcnt (get_or t'.fcb f fresh));
    },
  )

  new_lem :
      (s : Devs) (t : Fcbs)
      → find_dev (dev_path name) 0 s.dev t ≡ some none
      → devfs_add fresh name drivertask device mode blksize blkcnt (s, t)
        ≡ some (length s.dev, added s (fcb_add fresh (dev_path name) 3 t))
  unfolding devfs_add register
  new_lem s t e = ap (register fresh name drivertask device mode blksize blkcnt (s, t)) e

  added_lem :
      (s : Devs) (t : Fcbs) (r : ℕ × Fcbs)
      → Linked s.dev t
      → Added (dev_path name) t r
      → find_dev (dev_path name) 0 s.dev t ≡ some none
      → let (s', t'') = added s r in
        Linked s'.dev t''
        × IsValid t''
        × (find_dev (dev_path name) 0 s'.dev t'' ≡ some (some (length s.dev)))
  added_lem s t (f, t') l a e =
      let path = dev_path name in
      let v = describe (length s.dev) mode blksize blkcnt (get_or t'.fcb f fresh) in
      let t'' : Fcbs = record t' { fcb = set t'.fcb f v } in
      let q : v.abspath ≡ path_at t'.fcb f = abspath-get_or t'.fcb f fresh path a.0 in
      let k : Keeps t t'' = λ (i : ℕ) (p : List ℕ) h.
        path_at-set_same t'.fcb f i v q ∙ Keeps-Added path t (f, t') a i p h in
      let h : path_at t''.fcb f ≡ some path = path_at-set_same t'.fcb f f v q ∙ a.0 in
      (
        Linked-append t'' s.dev (new_dev s f) path (Linked-Keeps t t'' s.dev k l) h,
        IsValid-set t' f v q a.1,
        find_dev-append path 0 s.dev (new_dev s f) t t'' l k h e
            ∙ ap (λ i. some (some i)) (omega arith),
      )

-- With valid entries, of which every device has one, `devfs_add` gives an index, and this stays so.
-- A second call for the same name, whatever else it is called with, gives the same index and changes
-- nothing.
pub devfs_add-devfs_add :
    (fresh : Fcb) (name : List ℕ) (drivertask device mode blksize blkcnt : ℕ) (fresh' : Fcb)
    (drivertask' device' mode' blksize' blkcnt' : ℕ) (s : Devs) (t : Fcbs)
    → IsValid t
    → Linked s.dev t
    → (i : ℕ) × ((s' : Devs) × ((t' : Fcbs) × ((devfs_add fresh name drivertask device mode blksize
                blkcnt
                (s, t)
              ≡ some (i, (s', t')))
            × Linked s'.dev t'
            × IsValid t'
            × (devfs_add fresh' name drivertask' device' mode' blksize' blkcnt' (s', t')
                ≡ some (i, (s', t'))))))
devfs_add-devfs_add fresh name r d m z c fresh' r' d' m' z' c' s t v l =
    elim (Option-cases (find_dev (dev_path name) 0 s.dev t)) [
      | inl e ↦ absurd (find_dev-Linked (dev_path name) 0 s.dev t l e)
      | inr (some k, e) ↦ (
        k,
        (
          s,
          (
            t,
            (
              found_lem fresh name r d m z c s t k e,
              l,
              v,
              found_lem fresh' name r' d' m' z' c' s t k e,
            ),
          ),
        ),
      )
      | inr (none, e) ↦
          let q = fcb_add fresh (dev_path name) 3 t in
          let (s', t') = added fresh name r d m z c s q in
          let (l', v', w) =
            added_lem fresh name r d m z c s t q l (fcb_add-Added fresh (dev_path name) 3 t v) e in
          (
            length s.dev,
            (
              s',
              (
                t',
                (
                  new_lem fresh name r d m z c s t e,
                  l',
                  v',
                  found_lem fresh' name r' d' m' z' c' s' t' (length s.dev) w,
                ),
              ),
            ),
          )
    ]
