-- ===== src/Fcb/Add.antt =====
-- What adding a path does, and how the path is found again.
use osz.Base.{
  ℕ, zero, suc, ◌+◌, ◌<◌, ◌≡◌, refl, sym, ap, ◌∙◌, ◌≢◌, ◌⊎◌, inl, inr, Option, none, some, List, [],
  ◌∷◌, ◌++◌, length, length-append, set, get_or, get_elem?, get_elem?-set_ne, Bool, true, false,
  Bool-cases, ◌==◌, ==_iff, if◌then◌else◌, arith,
}
use mathlib.Core.Path.{subst}
use osz.Base.Text.{strcmp, strcmp→eq, strcmp_self}
use osz.Fcb.{Fcb, Fcbs, claim, add_from, add_at, fcb_add, matches, get_from, fcb_get}
use osz.Fcb.Table.{
  path_at, used, IsValid, path_at-set, path_at-set_ne, path_at-append, get_elem?-append_ne,
  path_at-append_ne, path_at-length, path_at_cong, used-set, used-append,
}

-- What the search from index `i` on tells of the entries `fs` there.
abbrev Searched : List ℕ → ℕ → Option ℕ → List Fcb → ℕ ⊎ Option ℕ → Type 0
Searched path i j fs (inl k) = (d : ℕ) × (k ≡ i + d) × (path_at fs d ≡ some path)
Searched path i j fs (inr none) = (d : ℕ) → path_at fs d ≢ some path
Searched path i j fs (inr (some m)) =
    ((d : ℕ) → path_at fs d ≢ some path)
    × ((j ≡ some m) ⊎ ((d : ℕ) × (m ≡ i + d) × (d < length fs) × (path_at fs d ≡ none)))

-- A path that neither the first entry nor the others have.
absent-cons :
    (path : List ℕ) (f : Fcb) (fs : List Fcb)
    → f.abspath ≢ some path
    → ((d : ℕ) → path_at fs d ≢ some path)
    → (d : ℕ) → path_at (f ∷ fs) d ≢ some path
absent-cons path f fs h w zero = h
absent-cons path f fs h w (suc d) = w d

-- An entry in use that is another's does not change what the search tells.
Searched-used :
    (path : List ℕ) (i : ℕ) (j : Option ℕ) (f : Fcb) (fs : List Fcb) (r : ℕ ⊎ Option ℕ)
    → f.abspath ≢ some path
    → Searched path (suc i) j fs r
    → Searched path i j (f ∷ fs) r
Searched-used path i j f fs (inl k) h (d, e, w) = (suc d, omega arith, w)
Searched-used path i j f fs (inr none) h w = absent-cons path f fs h w
Searched-used path i j f fs (inr (some m)) h (w, inl e) = (absent-cons path f fs h w, inl e)
Searched-used path i j f fs (inr (some m)) h (w, inr (d, e, l, p)) =
    (absent-cons path f fs h w, inr (suc d, omega arith, omega arith, p))

-- Nor does a free slot, but for the slot that it remembers.
Searched-free :
    (path : List ℕ) (i : ℕ) (j j' : Option ℕ) (f : Fcb) (fs : List Fcb) (r : ℕ ⊎ Option ℕ)
    → f.abspath ≡ none
    → f.abspath ≢ some path
    → (j' ≡ some i) ⊎ (j' ≡ j)
    → Searched path (suc i) j' fs r
    → Searched path i j (f ∷ fs) r
Searched-free path i j j' f fs (inl k) e h c (d, e', w) = (suc d, omega arith, w)
Searched-free path i j j' f fs (inr none) e h c w = absent-cons path f fs h w
Searched-free path i j j' f fs (inr (some m)) e h (inl c) (w, inl e') =
    (absent-cons path f fs h w, inr (0, ground arith, ground arith, e))
Searched-free path i j j' f fs (inr (some m)) e h (inr c) (w, inl e') =
    (absent-cons path f fs h w, inl (sym c ∙ e'))
Searched-free path i j j' f fs (inr (some m)) e h c (w, inr (d, e', l, p)) =
    (absent-cons path f fs h w, inr (suc d, omega arith, omega arith, p))

-- One entry, by its path, once the others are searched.
Searched-step :
    (path : List ℕ) (i : ℕ) (j : Option ℕ) (f : Fcb) (fs : List Fcb) (o : Option (List ℕ))
    → f.abspath ≡ o
    → ((j' : Option ℕ) → Searched path (suc i) j' fs (add_from path (suc i) j' fs))
    → Searched path i j (f ∷ fs) (elim o [
      | some p ↦ if strcmp p path then inl i else add_from path (suc i) j fs
      | none ↦ add_from path (suc i) (elim j [ none ↦ some i | some k ↦ some k ]) fs
    ])
Searched-step path i none f fs none e w =
    Searched-free path i none (some i) f fs (add_from path (suc i) (some i) fs) e (ground arith)
      (inl refl) (w (some i))
Searched-step path i (some m) f fs none e w =
    Searched-free path i (some m) (some m) f fs (add_from path (suc i) (some m) fs) e (ground arith)
      (inr refl) (w (some m))
Searched-step path i j f fs (some p) e w = go (strcmp p path) refl
  where
    go :
        (b : Bool)
        → strcmp p path ≡ b
        → Searched path i j (f ∷ fs) (if b then inl i else add_from path (suc i) j fs)
    go true h = (0, omega arith, e ∙ ap some (strcmp→eq p path h))
    go false h =
        Searched-used path i j f fs (add_from path (suc i) j fs)
          (λ e'. ground (arith, strcmp_self path)) (w j)

add_from-Searched :
    (path : List ℕ) (i : ℕ) (j : Option ℕ) (fs : List Fcb)
    → Searched path i j fs (add_from path i j fs)
unfolding add_from
add_from-Searched path i none [] = λ d. ground arith
add_from-Searched path i (some m) [] = (λ d. ground arith, inl refl)
add_from-Searched path i j (f ∷ fs) =
    Searched-step path i j f fs f.abspath refl (λ j'. add_from-Searched path (suc i) j' fs)

-- The path has the entry that the call names, and all other entries are as before. Either the table
-- held the path and nothing changed, or the entry was not in use and one more file is counted.
abbrev pub Added : List ℕ → Fcbs → ℕ × Fcbs → Type 0
Added path t (i, t') =
    (path_at t'.fcb i ≡ some path)
    × IsValid t'
    × ((k : ℕ) → k ≢ i → get_elem? t'.fcb k ≡ get_elem? t.fcb k)
    × ((t' ≡ t)
        ⊎ (((k : ℕ) → path_at t.fcb k ≢ some path)
            × (path_at t.fcb i ≡ none)
            × (t'.nfiles ≡ suc t.nfiles)))

-- A new path leaves a valid table valid.
IsValid-new :
    (path : List ℕ) (i : ℕ) (t : Fcbs) (fs : List Fcb)
    → IsValid t
    → ((k : ℕ) → path_at t.fcb k ≢ some path)
    → path_at fs i ≡ some path
    → ((k : ℕ) → k ≢ i → path_at fs k ≡ path_at t.fcb k)
    → used fs ≡ suc (used t.fcb)
    → IsValid (record { fcb = fs; nfiles = suc t.nfiles })
IsValid-new path i t fs v ab w ne u = record {
  unique = λ a b p ha hb. ground (arith, ne a, ne b, ab a, ab b, v.unique a b p);
  counted = ap suc v.counted ∙ sym u;
}

Added-at :
    (fresh : Fcb) (path : List ℕ) (type : ℕ) (t : Fcbs) (r : ℕ ⊎ Option ℕ)
    → IsValid t
    → Searched path 0 none t.fcb r
    → Added path t (add_at fresh path type t r)
unfolding add_at
Added-at fresh path type t (inl i) v (d, e, w) =
    let e' : i ≡ d = omega arith in
    (subst (λ k. path_at t.fcb k ≡ some path) (sym e') w, v, λ k n. refl, inl refl)
Added-at fresh path type t (inr none) v w =
    let c = claim path type fresh in
    (
      path_at-append t.fcb c,
      IsValid-new path (length t.fcb) t (t.fcb ++ c ∷ []) v w (path_at-append t.fcb c)
          (λ k n. path_at-append_ne t.fcb k c n) (used-append t.fcb c path refl),
      λ k n. get_elem?-append_ne t.fcb k c n,
      inr (w, path_at-length t.fcb, refl),
    )
Added-at fresh path type t (inr (some m)) v (w, inl e) = ground arith
Added-at fresh path type t (inr (some m)) v (w, inr (d, e, l, p)) =
    let c = claim path type (get_or t.fcb m fresh) in
    let l' : m < length t.fcb = omega arith in
    let e' : m ≡ d = omega arith in
    let p' : path_at t.fcb m ≡ none = subst (λ k. path_at t.fcb k ≡ none) (sym e') p in
    (
      path_at-set t.fcb m c l',
      IsValid-new path m t (set t.fcb m c) v w (path_at-set t.fcb m c l')
          (λ k n. path_at-set_ne t.fcb m k c n) (used-set t.fcb m c path l' p' refl),
      λ k n. get_elem?-set_ne t.fcb c (λ e'. n (sym e')),
      inr (w, p', refl),
    )

-- On a valid table `fcb_add` gives the entry of the path, all other entries are as before, and the
-- table stays valid: either the path had its entry and nothing changed, or no entry had it, the
-- entry was not in use and one more file is counted.
pub fcb_add-Added :
    (fresh : Fcb) (path : List ℕ) (type : ℕ) (t : Fcbs)
    → IsValid t
    → Added path t (fcb_add fresh path type t)
unfolding fcb_add
fcb_add-Added fresh path type t v =
    Added-at fresh path type t (add_from path 0 none t.fcb) v (add_from-Searched path 0 none t.fcb)

matches_own : (path : List ℕ) (f : Fcb) → f.abspath ≡ some path → matches path f ≡ true
unfolding matches
matches_own path f e = ground (arith, strcmp_self path)

-- Neither the path nor the path with a slash behind it.
matches_other :
    (path : List ℕ) (f : Fcb) (o : Option (List ℕ))
    → f.abspath ≡ o
    → o ≢ some path
    → o ≢ some (path ++ 47 ∷ [])
    → matches path f ≡ false
unfolding matches
matches_other path f none e h h' = ground arith
matches_other path f (some p) e h h' =
    ground (arith, strcmp→eq p path, strcmp→eq p (path ++ 47 ∷ []))

get_from_lem :
    (path : List ℕ) (i : ℕ) (fs : List Fcb) (d : ℕ)
    → path_at fs d ≡ some path
    → ((k : ℕ) → k ≢ d → path_at fs k ≢ some path)
    → ((k : ℕ) → path_at fs k ≢ some (path ++ 47 ∷ []))
    → get_from path i fs ≡ some (i + d)
unfolding get_from
get_from_lem path i [] d e h h' = ground arith
get_from_lem path i (f ∷ fs) zero e h h' = ground (arith, matches_own path f e)
get_from_lem path i (f ∷ fs) (suc d) e h h' = ground (
  arith,
  matches_other path f f.abspath refl (h 0 (omega arith)) (h' 0),
  get_from_lem path (suc i) fs d e (λ k n. h (suc k) (omega arith)) (λ k. h' (suc k)),
)

-- A path is not the same with a slash behind it.
longer : (p : List ℕ) → p ≢ p ++ 47 ∷ []
longer p e = ground (arith, length-append p (47 ∷ []), ap length e)

-- What an outcome of `fcb_add` lets `fcb_get` find.
get-Added :
    (x : ℕ) (path : List ℕ) (t : Fcbs) (r : ℕ × Fcbs)
    → Added (x ∷ path) t r
    → ((k : ℕ) → path_at t.fcb k ≢ some ((x ∷ path) ++ 47 ∷ []))
    → let (i, t') = r in fcb_get (x ∷ path) t' ≡ some i
unfolding fcb_get
get-Added x path t (i, t') (w, v, same, c) h =
    (get_from_lem (x ∷ path) 0 t'.fcb i w (λ k n e. n (v.unique k i (x ∷ path) e w))
      (λ k e.
        let eq : k ≢ i → path_at t'.fcb k ≡ path_at t.fcb k =
          λ n. path_at_cong t'.fcb t.fcb k (same k n) in
        elim (Bool-cases (k == i)) [
          | inl b ↦ longer (x ∷ path) (
              ground
                (arith, subst (λ a. path_at t'.fcb a ≡ some (x ∷ path)) (sym ((==_iff k i).0 b)) w))
          | inr b ↦ h k (sym (eq (λ e'. ground arith)) ∙ e)
        ]))
    ∙ ap some (omega arith)

-- On a valid table where no entry has the path with a slash behind it, `fcb_get` finds the entry
-- that `fcb_add` gave to a path that is not empty.
pub fcb_get-fcb_add :
    (fresh : Fcb) (x : ℕ) (path : List ℕ) (type : ℕ) (t : Fcbs)
    → IsValid t
    → ((k : ℕ) → path_at t.fcb k ≢ some ((x ∷ path) ++ 47 ∷ []))
    → let (i, t') = fcb_add fresh (x ∷ path) type t in fcb_get (x ∷ path) t' ≡ some i
fcb_get-fcb_add fresh x path type t v h =
    get-Added x path t (fcb_add fresh (x ∷ path) type t) (fcb_add-Added fresh (x ∷ path) type t v) h
