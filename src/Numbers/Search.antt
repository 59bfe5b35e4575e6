-- ===== src/Numbers/Search.antt =====
-- What `bsearch` finds.
use osz.Base.{
  ℕ, zero, suc, ◌+◌, ◌-◌, ◌*◌, ◌/◌, ◌<◌, ◌≡◌, refl, Bool, true, false, not, Option, none, some, ltb,
  if◌then◌else◌, arith,
}
use osz.Numbers.{Order, less, equal, greater, bsearch_loop, bsearch}

-- A result: NULL, or an offset that compares as equal.
abbrev pub Found : (ℕ → Order) → Option (Option ℕ) → Type 0
Found cmp none = ⊥
Found cmp (some none) = Unit {0}
Found cmp (some (some p)) = cmp p ≡ equal

bsearch_loop-Found : (n s e : ℕ) (cmp : ℕ → Order) → e - s < n → Found cmp (bsearch_loop n s e cmp)
unfolding bsearch_loop
bsearch_loop-Found zero s e cmp h = absurd (omega arith)
bsearch_loop-Found (suc n) s e cmp h =
    go (ltb s e) refl (cmp ((s + (e - s) / 2) * s)) refl
      (λ w. bsearch_loop-Found n s (s + (e - s) / 2) cmp (ground arith))
      (λ w. bsearch_loop-Found n (s + (e - s) / 2 + 1) e cmp (ground arith))
  where
    go :
        (b : Bool)
        → ltb s e ≡ b
        → (o : Order) → cmp ((s + (e - s) / 2) * s) ≡ o
        → (ltb s e ≡ true → Found cmp (bsearch_loop n s (s + (e - s) / 2) cmp))
        → (ltb s e ≡ true → Found cmp (bsearch_loop n (s + (e - s) / 2 + 1) e cmp))
        → Found cmp (
            if not b then some none else elim o [
              | less ↦ bsearch_loop n s (s + (e - s) / 2) cmp
              | greater ↦ bsearch_loop n (s + (e - s) / 2 + 1) e cmp
              | equal ↦ some (some ((s + (e - s) / 2) * s))
            ])
    go false p o q u v = tt
    go true p less q u v = u p
    go true p equal q u v = q
    go true p greater q u v = v p

-- `bsearch` ends, and what it gives is NULL or an offset where the key compares as equal.
bsearch-Found : (nmemb size : ℕ) (cmp : ℕ → Order) → Found cmp (bsearch nmemb size cmp)
unfolding bsearch
bsearch-Found nmemb size cmp = bsearch_loop-Found (suc nmemb) 0 nmemb cmp (omega arith)

-- `bsearch` in two elements never gives the second: where the key comes behind the first element, it
-- gives NULL, whatever the second one is and whatever size the elements have.
bsearch_two : (size : ℕ) (cmp : ℕ → Order) → cmp 0 ≡ greater → bsearch 2 size cmp ≡ some none
unfolding bsearch bsearch_loop
bsearch_two size cmp h = ground arith
