-- ===== src/Sched/Links.antt =====
-- Doubly linked queues of tasks: what it means that a head and the links hold a list of tasks, and
-- what the pointer surgery of the scheduler does to such a list.
use mathlib.Core.Path.{subst}
use osz.Base.{
  ℕ, ◌≡◌, ◌≢◌, ◌⊎◌, inl, inr, refl, sym, ◌∙◌, Bool, true, false, not, ◌&&◌, ◌||◌, List, [], ◌∷◌,
  ◌==◌, Bool-cases, if◌then◌else◌, arith,
}
use osz.Sched.{Tcb}

abbrev pub has : ℕ → List ℕ → Bool
has p [] = false
has p (x ∷ xs) = (p == x) || has p xs

abbrev pub remove : ℕ → List ℕ → List ℕ
remove p [] = []
remove p (x ∷ xs) = if p == x then xs else x ∷ remove p xs

abbrev pub IsNodup : List ℕ → Type 0
IsNodup [] = Unit {0}
IsNodup (x ∷ xs) = (has x xs ≡ false) × IsNodup xs

-- From `p` the `next` fields lead through the tasks of the list to 0, and the `prev` fields lead
-- back, the first one to `q`.
abbrev pub Links : (ℕ → Tcb) → (q p : ℕ) → List ℕ → Type 0
Links ts q p [] = p ≡ 0
Links ts q p (x ∷ xs) = (p ≡ x) × (x ≢ 0) × ((ts x).prev ≡ q) × Links ts x (ts x).next xs

-- Two stores with the same links at the tasks of a list.
abbrev pub SameLinks : (ts us : ℕ → Tcb) → List ℕ → Type 0
SameLinks ts us [] = Unit {0}
SameLinks ts us (x ∷ xs) =
    ((us x).next ≡ (ts x).next) × ((us x).prev ≡ (ts x).prev) × SameLinks ts us xs

pub Links-frame :
    (ts us : ℕ → Tcb) (q p : ℕ) (xs : List ℕ)
    → SameLinks ts us xs
    → Links ts q p xs
    → Links us q p xs
Links-frame ts us q p [] same l = l
Links-frame ts us q p (x ∷ xs) (n, v, same) (e, ne, b, l) =
    (e, ne, v ∙ b, rw n (Links-frame ts us x (ts x).next xs same l))

-- The head of a queue is 0 or one of its tasks.
pub head-has :
    (ts : ℕ → Tcb) (q p : ℕ) (xs : List ℕ) → Links ts q p xs → (p ≡ 0) ⊎ (has p xs ≡ true)
head-has ts q p [] l = inl l
head-has ts q p (x ∷ xs) l = inr (ground arith)

pub next-has :
    (ts : ℕ → Tcb) (q p x : ℕ) (xs : List ℕ)
    → Links ts q p xs
    → has x xs ≡ true
    → ((ts x).next ≡ 0) ⊎ (has (ts x).next xs ≡ true)
next-has ts q p x [] l h = cc
next-has ts q p x (y ∷ ys) (e, ne, b, l) h =
    ground (arith, head-has ts y (ts y).next ys l, next-has ts y (ts y).next x ys l)

-- Either the task is the head, or its `prev` is another task of the queue, which leads to it.
pub prev-has :
    (ts : ℕ → Tcb) (q p x : ℕ) (xs : List ℕ)
    → Links ts q p xs
    → has x xs ≡ true
    → ((p ≡ x) × ((ts x).prev ≡ q))
      ⊎ ((p ≢ x) × (has (ts x).prev xs ≡ true) × ((ts (ts x).prev).next ≡ x))
prev-has ts q p x [] l h = cc
prev-has ts q p x (y ∷ ys) (e, ne, b, l) h = ground (arith, prev-has ts y (ts y).next x ys l)

pub has-remove : (a p : ℕ) (xs : List ℕ) → has a (remove p xs) ≡ true → has a xs ≡ true
has-remove a p [] h = h
has-remove a p (x ∷ xs) h = ground (arith, has-remove a p xs)

pub has-remove_ne : (a p : ℕ) (xs : List ℕ) → a ≢ p → has a (remove p xs) ≡ has a xs
has-remove_ne a p [] ne = refl
has-remove_ne a p (x ∷ xs) ne = ground (arith, has-remove_ne a p xs ne)

pub has-remove_self : (p : ℕ) (xs : List ℕ) → IsNodup xs → has p (remove p xs) ≡ false
has-remove_self p [] d = refl
has-remove_self p (x ∷ xs) (out, d) = ground (arith, has-remove_self p xs d)

pub remove-IsNodup : (p : ℕ) (xs : List ℕ) → IsNodup xs → IsNodup (remove p xs)
remove-IsNodup p [] d = tt
remove-IsNodup p (x ∷ xs) (out, d) = ground (arith, remove-IsNodup p xs d, has-remove x p xs)

-- The links at `a` after a task `x` with neighbours `v` and `n` was taken out: the neighbours are
-- joined, and the links of the others are as before.
abbrev pub JoinedAt : (ts us : ℕ → Tcb) → (x a : ℕ) → Type 0
JoinedAt ts us x a =
    ((us a).next ≡ (if (a == (ts x).prev) && not (a == 0) then (ts x).next else (ts a).next))
    × ((us a).prev ≡ (if (a == (ts x).next) && not (a == 0) then (ts x).prev else (ts a).prev))

-- This at every task of a list but `x`. What `x` itself holds does not matter.
abbrev pub Unlinked : (ts us : ℕ → Tcb) → ℕ → List ℕ → Type 0
Unlinked ts us x [] = Unit {0}
Unlinked ts us x (y ∷ ys) = (y ≢ x → JoinedAt ts us x y) × Unlinked ts us x ys

pub Unlinked-of_all :
    (ts us : ℕ → Tcb) (x : ℕ) (xs : List ℕ)
    → ((a : ℕ) → has a xs ≡ true → a ≢ x → JoinedAt ts us x a)
    → Unlinked ts us x xs
Unlinked-of_all ts us x [] f = tt
Unlinked-of_all ts us x (y ∷ ys) f =
    (f y (ground arith), Unlinked-of_all ts us x ys (λ a h. f a (ground arith)))

module _ (ts us : ℕ → Tcb) (x : ℕ) where
  -- Tasks that are no neighbours keep their links.
  pub SameLinks-Unlinked :
      (xs : List ℕ)
      → Unlinked ts us x xs
      → has x xs ≡ false
      → (has (ts x).prev xs ≡ false) ⊎ ((ts x).prev ≡ 0)
      → (has (ts x).next xs ≡ false) ⊎ ((ts x).next ≡ 0)
      → SameLinks ts us xs
  SameLinks-Unlinked [] u h v n = tt
  SameLinks-Unlinked (y ∷ ys) (uy, u) h v n =
      let ne : y ≢ x = ground arith in ground (arith, uy ne, SameLinks-Unlinked ys u)

  -- The task at the head is taken out: the next one follows what stood before it.
  Links-tail :
      (q : ℕ) (xs : List ℕ)
      → Unlinked ts us x xs
      → (ts x).prev ≡ q
      → Links ts x (ts x).next xs
      → IsNodup xs
      → has x xs ≡ false
      → has q xs ≡ false
      → Links us q (ts x).next xs
  Links-tail q [] u b l d out o = l
  Links-tail q (y ∷ ys) (uy, u) b (e, ne, b', l) (out', d) out o =
      let ne' : y ≢ x = ground arith in
      let same = SameLinks-Unlinked ys u (ground arith) (ground arith) (ground arith) in
      let rest : Links us y (ts y).next ys = Links-frame ts us y (ts y).next ys same l in
      let n : (us y).next ≡ (ts y).next = ground (arith, uy ne') in
      (e, ne, ground (arith, uy ne'), rw n rest)

  pub Links-Unlinked :
      (q p : ℕ) (xs : List ℕ)
      → Unlinked ts us x xs
      → Links ts q p xs
      → IsNodup xs
      → has q xs ≡ false
      → has x xs ≡ true
      → Links us q (if p == x then (ts x).next else p) (remove x xs)
  Links-Unlinked q p [] u l d o h = cc
  Links-Unlinked q p (y ∷ ys) (uy, u) (e, ne, b, l) (out, d) o h = elim (Bool-cases (x == y)) [
    | inl hit ↦
        let same : x ≡ y = ground arith in
        let first : (p == x) ≡ true = ground arith in
        rw (hit, first)
          (Links-tail q ys u (ground arith) (subst (λ z. Links ts z (ts z).next ys) (sym same) l) d
            (ground arith) (ground arith))
    | inr miss ↦
        let ne' : y ≢ x = ground arith in
        let here : has x ys ≡ true = ground arith in
        let first : (p == x) ≡ false = ground arith in
        let n : (us y).next ≡ (if (ts y).next == x then (ts x).next else (ts y).next) =
          ground (arith, uy ne', prev-has ts y (ts y).next x ys l here) in
        let v : (us y).prev ≡ q = ground (arith, uy ne', next-has ts y (ts y).next x ys l here) in
        rw (miss, first) (e, ne, v, rw n (Links-Unlinked y (ts y).next ys u l d out here))
  ]

pub SameLinks-of_all :
    (ts us : ℕ → Tcb) (xs : List ℕ)
    → ((a : ℕ) → has a xs ≡ true → ((us a).next ≡ (ts a).next) × ((us a).prev ≡ (ts a).prev))
    → SameLinks ts us xs
SameLinks-of_all ts us [] f = tt
SameLinks-of_all ts us (y ∷ ys) f =
    let here = f y (ground arith) in
    (here.0, here.1, SameLinks-of_all ts us ys (λ a h. f a (ground arith)))

-- A task is put in front of a queue.
pub Links-push :
    (ts us : ℕ → Tcb) (x hd : ℕ) (xs : List ℕ)
    → Links ts 0 hd xs
    → IsNodup xs
    → has x xs ≡ false
    → x ≢ 0
    → (us x).prev ≡ 0
    → (us x).next ≡ hd
    → ((a : ℕ)
        → has a xs ≡ true
        → ((us a).next ≡ (ts a).next) × ((us a).prev ≡ (if a == hd then x else (ts a).prev)))
    → Links us 0 x (x ∷ xs)
Links-push ts us x hd [] l d out ne v n f = (refl, ne, v, n ∙ l)
Links-push ts us x hd (y ∷ ys) (e, ney, b, l) (out', d) out ne v n f =
    let here = f y (ground arith) in
    let same = SameLinks-of_all ts us ys (λ a h. ground (arith, f a)) in
    (refl, ne, v, (n ∙ e, ney, ground arith, rw here.0 (Links-frame ts us y (ts y).next ys same l)))

pub has-zero : (ts : ℕ → Tcb) (q p : ℕ) (xs : List ℕ) → Links ts q p xs → has 0 xs ≡ false
has-zero ts q p [] l = refl
has-zero ts q p (x ∷ xs) (e, ne, b, l) = ground (arith, has-zero ts x (ts x).next xs l)

-- The task behind `x` is another one.
pub next-ne :
    (ts : ℕ → Tcb) (q p x : ℕ) (xs : List ℕ)
    → Links ts q p xs
    → IsNodup xs
    → has x xs ≡ true
    → (ts x).next ≢ x
next-ne ts q p x [] l d h = cc
next-ne ts q p x (y ∷ ys) (e, ne, b, l) (out, d) h = elim (Bool-cases (x == y)) [
  | inl same ↦ λ bad. ground (arith, head-has ts y (ts y).next ys l)
  | inr other ↦ next-ne ts y (ts y).next x ys l d (ground arith)
]
