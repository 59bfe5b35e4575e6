-- ===== src/Paths/Stack.antt =====
-- The path stack keeps the last 64 elements.
use osz.Base.{
  length-drop, ℕ, zero, suc, ◌+◌, ◌-◌, ◌≤◌, ◌≡◌, refl, sym, ap, ◌∙◌, some, List, [], ◌∷◌, ◌++◌,
  length, drop, length-append, Bool-cases, inl, inr, ◌==◌, if◌then◌else◌, arith,
}
use osz.Paths.{PathStack, pathpush, pathpop}

pop_end : (x : ℕ × List ℕ) (st : PathStack) → pathpop (st ++ x ∷ []) ≡ some (x, st)
unfolding pathpop
pop_end x [] = refl
pop_end x (y ∷ []) = refl
pop_end x (y ∷ z ∷ st) = ground (arith, pop_end x (z ∷ st))

-- All elements of a list pushed, the first one first.
abbrev pub push_all : List (ℕ × List ℕ) → PathStack → PathStack
push_all [] st = st
push_all (x ∷ xs) st = push_all xs (pathpush x.0 x.1 st)

append_one : (x : ℕ × List ℕ) (st xs : PathStack) → (st ++ x ∷ []) ++ xs ≡ st ++ x ∷ xs
append_one x [] xs = refl
append_one x (y ∷ st) xs = ap (◌∷◌ y) (append_one x st xs)

append_nil : (st : PathStack) → st ++ [] ≡ st
append_nil [] = refl
append_nil (x ∷ st) = ap (◌∷◌ x) (append_nil st)

drop_le : (n : ℕ) (st : PathStack) → n ≡ 0 → drop n st ≡ st
drop_le zero st e = refl
drop_le (suc n) st e = absurd (omega arith)

push_all_lem :
    (xs st : PathStack)
    → length st ≤ 64
    → push_all xs st ≡ drop (length st + length xs - 64) (st ++ xs)
unfolding pathpush
push_all_lem [] st h = sym (drop_le (length st + 0 - 64) (st ++ []) (omega arith) ∙ append_nil st)
push_all_lem ((l, p) ∷ xs) [] h =
    push_all_lem xs ((l, p) ∷ []) (omega arith)
    ∙ ap (λ n. drop n ((l, p) ∷ xs)) {x = 1 + length xs - 64} {y = 0 + suc (length xs) - 64}
        (omega arith)
push_all_lem ((l, p) ∷ xs) (y ∷ st) h =
    let e = length-append st ((l, p) ∷ []) in
    let a = append_one (l, p) st xs in
    elim (Bool-cases (suc (length st) == 64)) [
      | inl b ↦ rw b (
          push_all_lem xs (st ++ (l, p) ∷ []) (ground arith)
          ∙ ap (λ n. drop n ((st ++ (l, p) ∷ []) ++ xs))
              {x = length (st ++ (l, p) ∷ []) + length xs - 64} {y = length xs} (ground arith)
          ∙ ap (drop (length xs)) a
          ∙ ap (λ n. drop n (y ∷ (st ++ (l, p) ∷ xs))) {x = suc (length xs)}
              {y = suc (length st) + suc (length xs) - 64} (ground arith))
      | inr b ↦ rw b (
          push_all_lem xs (y ∷ st ++ (l, p) ∷ []) (ground arith)
          ∙ ap (λ n. drop n (y ∷ ((st ++ (l, p) ∷ []) ++ xs)))
              {x = suc (length (st ++ (l, p) ∷ [])) + length xs - 64}
              {y = suc (length st) + suc (length xs) - 64} (ground arith)
          ∙ ap (λ ys. drop (suc (length st) + suc (length xs) - 64) (y ∷ ys)) a)
    ]

drop_one : (n : ℕ) (xs : PathStack) → drop 1 (drop n xs) ≡ drop (suc n) xs
drop_one zero [] = refl
drop_one zero (x ∷ xs) = refl
drop_one (suc n) [] = refl
drop_one (suc n) (x ∷ xs) = drop_one n xs

-- What a push leaves of a stack below the new element.
below :
    (xs st : PathStack)
    → st ≡ drop (length xs - 64) xs
    → (if length st == 64 then drop 1 st else st) ≡ drop (length xs - 63) xs
below xs st e =
    let l : length st ≡ length xs - (length xs - 64) =
      ap length e ∙ length-drop (length xs - 64) xs in
    elim (Bool-cases (length st == 64)) [
      | inl b ↦ rw b (
          ap (drop 1) e
          ∙ drop_one (length xs - 64) xs
          ∙ ap (λ n. drop n xs) {x = suc (length xs - 64)} {y = length xs - 63} (ground arith))
      | inr b ↦
          rw b (e ∙ ap (λ n. drop n xs) {x = length xs - 64} {y = length xs - 63} (ground arith))
    ]

pop_push :
    (l : ℕ) (p : List ℕ) (st : PathStack)
    → pathpop (pathpush l p st) ≡ some ((l, p), if length st == 64 then drop 1 st else st)
unfolding pathpush
pop_push l p st = elim (Bool-cases (length st == 64)) [
  | inl b ↦ rw b (pop_end (l, p) (drop 1 st))
  | inr b ↦ rw b (pop_end (l, p) st)
]

-- After any number of pushes to an empty stack it holds the last 64 elements, the oldest at its
-- bottom, and a pop gives the last element pushed and the stack without it.
pathpop-pathpush :
    (xs : PathStack) (lsn : ℕ) (path : List ℕ)
    → (push_all xs [] ≡ drop (length xs - 64) xs)
      × (pathpop (pathpush lsn path (push_all xs []))
          ≡ some ((lsn, path), drop (length xs - 63) xs))
pathpop-pathpush xs lsn path =
    let e : push_all xs [] ≡ drop (length xs - 64) xs =
      push_all_lem xs [] (omega arith)
      ∙ ap (λ n. drop n xs) {x = 0 + length xs - 64} {y = length xs - 64} (omega arith) in
    (
      e,
      pop_push lsn path (push_all xs [])
          ∙ ap (λ st. some ((lsn, path), st)) (below xs (push_all xs []) e),
    )
