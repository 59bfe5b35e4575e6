-- ===== src/Fcb/Free.antt =====
-- When `fcb_free` does not end.
use osz.Base.{
  ℕ, zero, suc, ◌+◌, ◌<◌, ◌≤◌, ◌≡◌, refl, sym, ◌≢◌, Option, none, some, List, [], ◌∷◌, length,
  get_elem?, get_elem?-length, Bool, true, false, arith,
}
use mathlib.Core.Path.{subst}
use osz.Fcb.{Fcb, Fcbs, fcb_del, free_loop, free_again, fcb_free}
use osz.Fcb.Stuck.{Stuck, fcb_del-Stuck}

-- An outcome of the loop from index `k` on, `n` times: it ends, the table is still like that, and an
-- entry was tried, if one was before or the loop comes to the one that nobody has open.
abbrev Looped : (i j k n : ℕ) → Bool → Option (Bool × Fcbs) → Type 0
Looped i j k n was none = ⊥
Looped i j k n was (some (was', t')) =
    Stuck i j t'.fcb × (was ≡ true → was' ≡ true) × (k ≤ i → i < k + n → was' ≡ true)

-- The loop after an entry was tried, and after an entry was passed over.
Looped-tried :
    (i j k n : ℕ) (was : Bool) (r : Option (Bool × Fcbs))
    → Looped i j (suc k) n true r
    → Looped i j k (suc n) was r
Looped-tried i j k n was none h = h
Looped-tried i j k n was (some (was', t')) (s, w, l) = (s, λ e. w refl, λ a b. w refl)

Looped-passed :
    (i j k n : ℕ) (was : Bool) (r : Option (Bool × Fcbs))
    → k ≢ i
    → Looped i j (suc k) n was r
    → Looped i j k (suc n) was r
Looped-passed i j k n was none ne h = h
Looped-passed i j k n was (some (was', t')) ne (s, w, l) =
    (s, w, λ a b. l (ground arith) (omega arith))

get_elem?-none : (fs : List Fcb) (k : ℕ) → get_elem? fs k ≡ none → length fs ≤ k
get_elem?-none [] k e = omega arith
get_elem?-none (x ∷ fs) zero e = ground arith
get_elem?-none (x ∷ fs) (suc k) e = omega (arith, get_elem?-none fs k e)

-- The loop at an entry, by the number of those who have it open.
Looped-step :
    (i j n d k : ℕ) (was : Bool) (t : Fcbs) (o : Option Fcb)
    → get_elem? t.fcb k ≡ o
    → Stuck i j t.fcb
    → ((b : Bool) (t' : Fcbs)
        → Stuck i j t'.fcb
        → Looped i j (suc k) n b (free_loop n (suc d) (suc k) b t'))
    → Looped i j k (suc n) was (elim o [
      | none ↦ some (was, t)
      | some f ↦ elim f.nopen [
        | zero ↦ elim (fcb_del (suc d) k t) [
          | none ↦ none
          | some t' ↦ free_loop n (suc d) (suc k) true t'
        ]
        | suc m ↦ free_loop n (suc d) (suc k) was t
      ]
    ])
Looped-step i j n d k was t none e s ih =
    let (c, ce, cn) = s.closed in
    (
      s,
      λ b. b,
      λ a b. absurd (omega (arith, get_elem?-none t.fcb k e, get_elem?-length t.fcb i c ce)),
    )
Looped-step i j n d k was t (some f) e s ih = go f.nopen refl
  where
    go :
        (m : ℕ)
        → f.nopen ≡ m
        → Looped i j k (suc n) was (elim m [
          | zero ↦ elim (fcb_del (suc d) k t) [
            | none ↦ none
            | some t' ↦ free_loop n (suc d) (suc k) true t'
          ]
          | suc m' ↦ free_loop n (suc d) (suc k) was t
        ])
    go zero q =
        let (t', e', s') = fcb_del-Stuck i j d k t f s e q in
        subst
          (λ r.
            Looped i j k (suc n) was
              (elim r [ none ↦ none | some x ↦ free_loop n (suc d) (suc k) true x ]))
          (sym e') (Looped-tried i j k n was (free_loop n (suc d) (suc k) true t') (ih true t' s'))
    go (suc m) q =
        let (c, ce, cn) = s.closed in
        Looped-passed i j k n was (free_loop n (suc d) (suc k) was t)
          (λ h. ground (arith, subst (λ a. get_elem? t.fcb a ≡ some f) h e)) (ih was t s)

free_loop-Looped :
    (i j n d k : ℕ) (was : Bool) (t : Fcbs)
    → Stuck i j t.fcb
    → Looped i j k n was (free_loop n (suc d) k was t)
unfolding free_loop
free_loop-Looped i j zero d k was t s = (s, λ e. e, λ a b. absurd (omega arith))
free_loop-Looped i j (suc n) d k was t s =
    Looped-step i j n d k was t (get_elem? t.fcb k) refl s
      (λ b t' s'. free_loop-Looped i j n d (suc k) b t' s')

free_again-Looped :
    (i j n : ℕ) (again : Fcbs → Option Fcbs) (r : Option (Bool × Fcbs))
    → i < n
    → ((t : Fcbs) → Stuck i j t.fcb → again t ≡ none)
    → Looped i j 0 n false r
    → free_again again r ≡ none
unfolding free_again
free_again-Looped i j n again none l h w = absurd w
free_again-Looped i j n again (some (true, t)) l h (s, a, b) = h t s
free_again-Looped i j n again (some (false, t)) l h (s, a, b) =
    ground (arith, b (omega arith) (omega arith))

-- On a table without unions where an entry that nobody has open, a free slot too, lies below an
-- entry that is open, `fcb_free` never ends: no number of turns is enough.
pub fcb_free-Stuck :
    (i j turns d : ℕ) (t : Fcbs) → Stuck i j t.fcb → fcb_free turns (suc d) t ≡ none
unfolding fcb_free
fcb_free-Stuck i j zero d t s = refl
fcb_free-Stuck i j (suc turns) d t s =
    let (c, ce, cn) = s.closed in
    free_again-Looped i j (length t.fcb) (fcb_free turns (suc d))
      (free_loop (length t.fcb) (suc d) 0 false t) (get_elem?-length t.fcb i c ce)
      (λ t' s'. fcb_free-Stuck i j turns d t' s')
      (free_loop-Looped i j (length t.fcb) d 0 false t s)
