-- ===== src/Fcb/Stuck.antt =====
-- Tables where an entry that nobody has open lies below an open one, and what `fcb_del` does there.
use osz.Base.{
  ℕ, zero, suc, ◌-◌, ◌<◌, ◌≤◌, ◌≡◌, refl, sym, ◌∙◌, ◌≢◌, Option, none, some, List, [], ◌∷◌, length,
  set, get_or, get_elem?, get_elem?-length, get_elem?-set_ne, get_elem?-set_self, Bool-cases, ◌==◌,
  ==_iff, arith,
}
use mathlib.Core.Path.{subst}
use mathlib.Core.Logic.{◌⊎◌, inl, inr}
use osz.Fcb.{Fcb, Fcbs, type_union, keep, trim, in_use, del_union, drop_entry, fcb_del}

keep_head : (f : Fcb) (gs : List Fcb) → f.abspath ≢ none → get_elem? (keep f gs) 0 ≡ some f
unfolding keep
keep_head f [] h = ground arith
keep_head f (x ∷ gs) h = refl

keep_more :
    (f g : Fcb) (gs : List Fcb) (j k : ℕ)
    → get_elem? gs j ≡ some g
    → get_elem? (keep f gs) k ≡ get_elem? (f ∷ gs) k
unfolding keep
keep_more f g [] j k e = ground arith
keep_more f g (x ∷ gs) j k e = refl

keep_back :
    (f g : Fcb) (gs : List Fcb) (k : ℕ)
    → get_elem? (keep f gs) k ≡ some g
    → get_elem? (f ∷ gs) k ≡ some g
unfolding keep
keep_back f g [] zero e = ground arith
keep_back f g [] (suc k) e = ground arith
keep_back f g (x ∷ gs) k e = e

-- An entry in use keeps all entries up to it in the table.
get_elem?-trim :
    (fs : List Fcb) (j k : ℕ) (g : Fcb)
    → get_elem? fs j ≡ some g
    → g.abspath ≢ none
    → k ≤ j
    → get_elem? (trim fs) k ≡ get_elem? fs k
unfolding trim
get_elem?-trim [] j k g e h l = ground arith
get_elem?-trim (f ∷ fs) zero zero g e h l = ground (arith, keep_head f (trim fs))
get_elem?-trim (f ∷ fs) zero (suc k) g e h l = ground arith
get_elem?-trim (f ∷ fs) (suc j) zero g e h l =
    keep_more f g (trim fs) j 0 (get_elem?-trim fs j j g e h (omega arith) ∙ e)
get_elem?-trim (f ∷ fs) (suc j) (suc k) g e h l =
    keep_more f g (trim fs) j (suc k) (get_elem?-trim fs j j g e h (omega arith) ∙ e)
    ∙ get_elem?-trim fs j k g e h (omega arith)

-- Whatever the table holds after it gave free slots back, it held before.
trim-get_elem? :
    (fs : List Fcb) (k : ℕ) (f : Fcb) → get_elem? (trim fs) k ≡ some f → get_elem? fs k ≡ some f
unfolding trim
trim-get_elem? [] k f e = e
trim-get_elem? (x ∷ fs) zero f e = keep_back x f (trim fs) 0 e
trim-get_elem? (x ∷ fs) (suc k) f e = trim-get_elem? fs k f (keep_back x f (trim fs) (suc k) e)

-- An entry that nobody has open lies below one that is open, and there are no unions.
pub record Stuck (i j : ℕ) (fs : List Fcb) : Type 0 where
  pub below : i < j
  pub closed : (f : Fcb) × (get_elem? fs i ≡ some f) × (f.nopen ≡ 0)
  pub opened : (g : Fcb) × (get_elem? fs j ≡ some g) × (g.abspath ≢ none) × (g.nopen ≢ 0)
  pub plain : (k : ℕ) (f : Fcb) → get_elem? fs k ≡ some f → f.type ≢ type_union

-- The entry at a place after another was replaced.
set-get_elem? :
    (fs : List Fcb) (k l : ℕ) (f' : Fcb)
    → k < length fs
    → (get_elem? (set fs k f') l ≡ some f') ⊎ (get_elem? (set fs k f') l ≡ get_elem? fs l)
set-get_elem? fs k l f' h = elim (Bool-cases (k == l)) [
  | inl b ↦ inl (
      subst (λ a. get_elem? (set fs k f') a ≡ some f') ((==_iff k l).0 b)
        (get_elem?-set_self fs k f' h))
  | inr b ↦ inr (get_elem?-set_ne fs f' (λ e. ground arith))
]

-- Replacing an entry that nobody has open by another one.
Stuck-set :
    (i j k : ℕ) (fs : List Fcb) (f f' : Fcb)
    → Stuck i j fs
    → get_elem? fs k ≡ some f
    → f.nopen ≡ 0
    → f'.nopen ≡ 0
    → f'.type ≡ f.type
    → Stuck i j (set fs k f')
Stuck-set i j k fs f f' s e n n' w =
    let l = get_elem?-length fs k f e in
    let (c, ce, cn) = s.closed in
    let (g, e', u, m) = s.opened in
    let ne : k ≢ j = λ q. ground (arith, subst (λ a. get_elem? fs a ≡ some f) q e) in
    record {
      below = s.below;
      closed = elim (set-get_elem? fs k i f' l) [ inl q ↦ (f', q, n') | inr q ↦ (c, q ∙ ce, cn) ];
      opened = (g, get_elem?-set_ne fs f' ne ∙ e', u, m);
      plain = λ a x h. elim (set-get_elem? fs k a f' l) [
        | inl q ↦ ground (arith, s.plain k f e, sym q ∙ h)
        | inr q ↦ s.plain a x (sym q ∙ h)
      ];
    }

Stuck-trim : (i j : ℕ) (fs : List Fcb) → Stuck i j fs → Stuck i j (trim fs)
Stuck-trim i j fs s =
    let (f, e, n) = s.closed in
    let (g, e', u, m) = s.opened in
    record {
      below = s.below;
      closed = (f, get_elem?-trim fs j i g e' u (omega (arith, s.below)) ∙ e, n);
      opened = (g, get_elem?-trim fs j j g e' u (omega arith) ∙ e', u, m);
      plain = λ k f h. s.plain k f (trim-get_elem? fs k f h);
    }

in_use-get_elem? :
    (fs : List Fcb) (k : ℕ) (f : Fcb)
    → get_elem? fs k ≡ some f
    → in_use fs k ≡ (elim f.abspath [ none ↦ none | some p ↦ some f ])
in_use-get_elem? [] k f e = ground arith
in_use-get_elem? (x ∷ fs) zero f e = ground arith
in_use-get_elem? (x ∷ fs) (suc k) f e = in_use-get_elem? fs k f e

-- Deleting a free slot does nothing.
free_slot : (d k : ℕ) (t : Fcbs) → in_use t.fcb k ≡ none → fcb_del (suc d) k t ≡ some t
unfolding fcb_del
free_slot d k t e = ground arith

get_or-get_elem? : (fs : List Fcb) (k : ℕ) (f x : Fcb) → get_elem? fs k ≡ some f → get_or fs k x ≡ f
get_or-get_elem? [] k f x e = ground arith
get_or-get_elem? (y ∷ fs) zero f x e = ground arith
get_or-get_elem? (y ∷ fs) (suc k) f x e = get_or-get_elem? fs k f x e

-- The entry with its counter lowered, and the table that holds it.
abbrev lowered : Fcb → Fcb
lowered f = record f { nopen = f.nopen - 1 }

abbrev with_entry : ℕ → Fcb → Fcbs → Fcbs
with_entry k f t = record t { fcb = set t.fcb k f }

-- What `fcb_del` does to an entry in use that nobody has open and that is no union.
fcb_del-drop_entry :
    (d k : ℕ) (t : Fcbs) (f : Fcb) (p : List ℕ)
    → in_use t.fcb k ≡ some f
    → f.abspath ≡ some p
    → f.nopen ≡ 0
    → f.type ≢ type_union
    → fcb_del (suc d) k t ≡ some (drop_entry k (λ g. g) (lowered f) (with_entry k (lowered f) t))
unfolding fcb_del del_union
fcb_del-drop_entry d k t f p e a n u = ground arith

drop_entry-Stuck :
    (i j k : ℕ) (t : Fcbs) (f : Fcb)
    → Stuck i j t.fcb
    → get_elem? t.fcb k ≡ some f
    → f.nopen ≡ 0
    → Stuck i j (drop_entry k (λ g. g) (lowered f) (with_entry k (lowered f) t)).fcb
drop_entry-Stuck i j k t f s e n =
    let fs₁ = set t.fcb k (lowered f) in
    let e₁ = get_elem?-set_self t.fcb k (lowered f) (get_elem?-length t.fcb k f e) in
    let g = get_or-get_elem? fs₁ k (lowered f) (lowered f) e₁ in
    let low : (lowered f).nopen ≡ 0 = omega arith in
    let s₁ = Stuck-set i j k t.fcb f (lowered f) s e n low refl in
    Stuck-trim i j (set fs₁ k (record (get_or fs₁ k (lowered f)) { abspath = none; filesize = 0 }))
      (Stuck-set i j k fs₁ (lowered f)
        (record (get_or fs₁ k (lowered f)) { abspath = none; filesize = 0 }) s₁ e₁ low
        (subst (λ x. x.nopen ≡ 0) (sym g) low) (subst (λ x. x.type ≡ f.type) (sym g) refl))

-- Deleting an entry that nobody has open ends, and leaves the table like that.
pub fcb_del-Stuck :
    (i j d k : ℕ) (t : Fcbs) (f : Fcb)
    → Stuck i j t.fcb
    → get_elem? t.fcb k ≡ some f
    → f.nopen ≡ 0
    → (t' : Fcbs) × (fcb_del (suc d) k t ≡ some t') × Stuck i j t'.fcb
fcb_del-Stuck i j d k t f s e n = go f.abspath refl
  where
    go :
        (o : Option (List ℕ))
        → f.abspath ≡ o
        → (t' : Fcbs) × (fcb_del (suc d) k t ≡ some t') × Stuck i j t'.fcb
    go none p = (t, free_slot d k t (ground (arith, in_use-get_elem? t.fcb k f e)), s)
    go (some q) p = (
      drop_entry k (λ g. g) (lowered f) (with_entry k (lowered f) t),
      fcb_del-drop_entry d k t f q (ground (arith, in_use-get_elem? t.fcb k f e)) p n
          (s.plain k f e),
      drop_entry-Stuck i j k t f s e n,
    )
