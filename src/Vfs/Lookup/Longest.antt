-- ===== src/Vfs/Lookup/Longest.antt =====
-- The mount of a path, `lookup` of src/fs/vfs.c.
use mathlib.Core.Path.{subst}
use osz.Base.{
  some_inj, ℕ, zero, suc, ◌+◌, ◌≤◌, ◌≡◌, refl, ap, ◌∙◌, sym, true, ◌&&◌, some, List, [], ◌∷◌,
  length, get_elem?, ltb, ◌⊎◌, inl, inr, Bool-cases, Option-cases, arith,
}
use osz.Fcb.{Fcb}
use osz.Vfs.{Mount}
use osz.Vfs.Located.{is_prefix, mount_path, longest, find_mount}

-- The mount at index `j` of the list matches the path in `n` bytes.
abbrev pub MatchesAt : List Fcb → (path : List ℕ) → List Mount → (j n : ℕ) → Type 0
MatchesAt fcb path ms j n =
    (m : Mount) × (p : List ℕ) × (get_elem? ms j ≡ some m)
    × (mount_path fcb m ≡ some p)
    × (is_prefix p path ≡ true)
    × (length p ≡ n)

-- What a match at the head is.
head_match :
    (fcb : List Fcb) (path : List ℕ) (m : Mount) (ms : List Mount) (p : List ℕ) (n : ℕ)
    → mount_path fcb m ≡ some p
    → MatchesAt fcb path (m ∷ ms) zero n
    → (is_prefix p path ≡ true) × (length p ≡ n)
head_match fcb path m ms p n z (m', p', a, b, c, d) =
    let q : p ≡ p' = some_inj p p' (sym z ∙ ap (mount_path fcb) (some_inj m m' a) ∙ b) in
    (ap (λ r. is_prefix r path) q ∙ c, ap (λ (r : List ℕ). length r) q ∙ d)

every :
    (fcb : List Fcb) (path : List ℕ) (m : Mount) (ms : List Mount) (p : List ℕ) (l' : ℕ)
    → mount_path fcb m ≡ some p
    → (is_prefix p path ≡ true → length p ≤ l')
    → ((j n : ℕ) → MatchesAt fcb path ms j n → n ≤ l')
    → (j n : ℕ) → MatchesAt fcb path (m ∷ ms) j n
    → n ≤ l'
every fcb path m ms p l' z h k zero n t =
    let (c, d) = head_match fcb path m ms p n z t in omega (arith, h c, d)
every fcb path m ms p l' z h k (suc j) n t = k j n t

Source : List Fcb → (path : List ℕ) → (i : ℕ) → List Mount → (k' l' : ℕ) → Type 0
Source fcb path i ms k' l' = (j : ℕ) × (k' ≡ i + j) × MatchesAt fcb path ms j l'

here :
    (fcb : List Fcb) (path : List ℕ) (i : ℕ) (m : Mount) (ms : List Mount) (p : List ℕ) (k' l' : ℕ)
    → mount_path fcb m ≡ some p
    → is_prefix p path ≡ true
    → ((k' ≡ i) × (l' ≡ length p)) ⊎ Source fcb path (suc i) ms k' l'
    → Source fcb path i (m ∷ ms) k' l'
unfolding Source
here fcb path i m ms p k' l' z c (inl (a, b)) = (zero, omega (arith, a), (m, p, refl, z, c, sym b))
here fcb path i m ms p k' l' z c (inr (j, a, t)) = (suc j, omega (arith, a), t)

there :
    (fcb : List Fcb) (path : List ℕ) (i k l : ℕ) (m : Mount) (ms : List Mount) (k' l' : ℕ)
    → ((k' ≡ k) × (l' ≡ l)) ⊎ Source fcb path (suc i) ms k' l'
    → ((k' ≡ k) × (l' ≡ l)) ⊎ Source fcb path i (m ∷ ms) k' l'
unfolding Source
there fcb path i k l m ms k' l' (inl a) = inl a
there fcb path i k l m ms k' l' (inr (j, a, t)) = inr (suc j, omega (arith, a), t)

longest_lem :
    (fcb : List Fcb) (path : List ℕ) (i k l : ℕ) (ms : List Mount) (k' l' : ℕ)
    → longest fcb path i k l ms ≡ some (k', l')
    → (l ≤ l')
      × ((j n : ℕ) → MatchesAt fcb path ms j n → n ≤ l')
      × (((k' ≡ k) × (l' ≡ l)) ⊎ Source fcb path i ms k' l')
unfolding longest
longest_lem fcb path i k l [] k' l' e = (
  ground arith,
  (λ j n (m, p, a, c, d, r). absurd (ground arith)),
  inl (ground arith, ground arith),
)
longest_lem fcb path i k l (m ∷ ms) k' l' e = elim (Option-cases (mount_path fcb m)) [
  | inl z ↦ absurd (ground arith)
  | inr (p, z) ↦ elim (Bool-cases (ltb l (length p) && is_prefix p path)) [
    | inl b ↦
        let e' : longest fcb path (suc i) i (length p) ms ≡ some (k', l') = ground arith in
        let (le, all, from) = longest_lem fcb path (suc i) i (length p) ms k' l' e' in
        (
          ground arith,
          every fcb path m ms p l' z (λ x. le) all,
          inr (here fcb path i m ms p k' l' z (ground arith) from),
        )
    | inr b ↦
        let e' : longest fcb path (suc i) k l ms ≡ some (k', l') = ground arith in
        let (le, all, from) = longest_lem fcb path (suc i) k l ms k' l' e' in
        (
          le,
          every fcb path m ms p l' z (λ x. ground arith) all,
          there fcb path i k l m ms k' l' from,
        )
  ]
]

-- What the search finds.
Chosen : List Fcb → (path : List ℕ) → List Mount → Mount × (ℕ × ℕ) → Type 0
Chosen fcb path ms (m, (k, l)) =
    (get_elem? ms k ≡ some m)
    × (((k ≡ 0) × (l ≡ 0)) ⊎ MatchesAt fcb path ms k l)
    × ((j n : ℕ) → MatchesAt fcb path ms j n → n ≤ l)

from_start :
    (fcb : List Fcb) (path : List ℕ) (ms : List Mount) (k l : ℕ)
    → ((k ≡ 0) × (l ≡ 0)) ⊎ Source fcb path 0 ms k l
    → ((k ≡ 0) × (l ≡ 0)) ⊎ MatchesAt fcb path ms k l
unfolding Source
from_start fcb path ms k l (inl a) = inl a
from_start fcb path ms k l (inr (j, a, t)) =
    inr (subst (λ i. MatchesAt fcb path ms i l) (omega (arith, a)) t)

-- The mount that `lookup` takes for a path is, by its index and the length of its path, one whose
-- path is a prefix of the path, or else mount 0 with the length 0; and no mount whose path is a
-- prefix of the path has a longer one.
pub find_mount-IsLongest :
    (fcb : List Fcb) (path : List ℕ) (ms : List Mount) (m : Mount) (k l : ℕ)
    → find_mount fcb path ms ≡ some (m, (k, l))
    → (get_elem? ms k ≡ some m)
      × (((k ≡ 0) × (l ≡ 0)) ⊎ MatchesAt fcb path ms k l)
      × ((j n : ℕ) → MatchesAt fcb path ms j n → n ≤ l)
unfolding find_mount Chosen
find_mount-IsLongest fcb path ms m k l e = elim (Option-cases (longest fcb path 0 0 0 ms)) [
  | inl z ↦ absurd (ground arith)
  | inr ((k', l'), z) ↦ elim (Option-cases (get_elem? ms k')) [
    | inl y ↦ absurd (ground arith)
    | inr (m', y) ↦
        let (le, all, from) = longest_lem fcb path 0 0 0 ms k' l' z in
        subst (Chosen fcb path ms) (some_inj (m', (k', l')) (m, (k, l)) (ground arith))
          (y, from_start fcb path ms k' l' from, all)
  ]
]
