-- ===== src/Paths/Room.antt =====
-- How many bytes `canonize` writes: what a turn appends comes from the path, but for one slash.
use osz.Base.{
  length-drop, ℕ, zero, suc, ◌+◌, ◌-◌, ◌≤◌, ◌<◌, ◌≡◌, ◌⊎◌, inl, inr, refl, Bool, true, false, ◌&&◌,
  ◌||◌, some, List, [], ◌∷◌, length, Bool-cases, ltb, ◌==◌, if◌then◌else◌, arith,
}
use osz.Base.Text.{first_byte, rest_bytes}
use osz.Paths.{
  Scan, path_end, here, advance, emit, skip_slashes, copy_name, copy_digits, skip_sign, is_digit,
  second_byte, version_part, offset_part, name_end, name_part, ends_joker, with_slash, canon_step,
  overruns, canon_loop,
}
use osz.Paths.Parts.{Ends, length-skip_slashes, canon_step-Turns, not_empty}

-- The bytes of the result and of the rest of the path.
abbrev pub size : Scan → ℕ
size s = length s.out + length s.rest

length-rest_bytes : (p : List ℕ) → length (rest_bytes p) ≡ length p - 1
length-rest_bytes [] = refl
length-rest_bytes (c ∷ p) = omega arith

length-some : (p : List ℕ) (c : ℕ) → 0 < c → (first_byte p == c) ≡ true → 0 < length p
length-some [] c z h = ground arith
length-some (x ∷ p) c z h = omega arith

size-copy_name :
    (p : List ℕ) (prev : ℕ) (out : List ℕ) → size (copy_name p prev out) ≡ length out + length p
unfolding copy_name
size-copy_name [] prev out = refl
size-copy_name (c ∷ p) prev out = ground (arith, size-copy_name p c (c ∷ out))

size-copy_digits :
    (p : List ℕ) (prev : ℕ) (out : List ℕ) → size (copy_digits p prev out) ≡ length out + length p
unfolding copy_digits
size-copy_digits [] prev out = refl
size-copy_digits (c ∷ p) prev out = ground (arith, size-copy_digits p c (c ∷ out))

-- A sign is skipped, or the byte before stays.
skip_sign-size :
    (s : Scan)
    → ((length (skip_sign s).rest + 1 ≡ length s.rest)
        ⊎ ((length (skip_sign s).rest ≡ length s.rest) × ((skip_sign s).prev ≡ s.prev)))
      × ((skip_sign s).out ≡ s.out)
skip_sign-size s = elim (Bool-cases (here s == 45)) [
  | inl b ↦
      rw b
        (inl (omega (arith, length-rest_bytes s.rest, length-some s.rest 45 (omega arith) b)), refl)
  | inr b ↦ rw b (inr (refl, refl), refl)
]

version_part-size : (s : Scan) → size (version_part s).1 ≤ size s
unfolding version_part
version_part-size s =
    let s₁ = skip_sign (advance s) in
    let next = second_byte s₁.rest in
    let k = skip_sign-size (advance s) in
    let a = length-rest_bytes s.rest in
    let b = length-rest_bytes s₁.rest in
    elim (Bool-cases (first_byte s.out == 47)) [
      | inl d ↦ rw d (omega arith)
      | inr d ↦
          rw d
            (elim (Bool-cases
              (ltb 1 (length s₁.rest) && is_digit (here s₁) && ((next == 35) || (next == 0)))) [
                | inl q ↦ rw q (ground arith)
                | inr q ↦ rw q (ground arith)
              ])
    ]

offset_part-size : (s : Scan) → (here s == 35) ≡ true → size (offset_part s) ≤ size s
unfolding offset_part
offset_part-size s h =
    let s₁ = skip_sign (advance s) in
    let s₂ = if s₁.prev == 45 then emit 45 (emit 35 s₁) else emit 35 s₁ in
    let k = skip_sign-size (advance s) in
    let a = length-rest_bytes s.rest in
    let n = length-some s.rest 35 (omega arith) h in
    let m : size s₂ ≤ size s = ground arith in
    elim (Bool-cases (first_byte s.out == 47)) [
      | inl b ↦ rw b (omega arith)
      | inr b ↦ rw b (elim (Bool-cases (is_digit (here s₁))) [
        | inl q ↦ rw q (omega (arith, size-copy_digits s₂.rest s₂.prev s₂.out))
        | inr q ↦ rw q (ground arith)
      ])
    ]

-- After a turn the result has at most one byte more than `n`; where the loop goes on with a rest,
-- both have no more than `n`.
abbrev Room : ℕ → Bool × Scan → Type 0
Room n (stop, s) = (length s.out ≤ n + 1) × ((stop ≡ true) ⊎ (0 < length s.rest → size s ≤ n))

name_end-Room : (n : ℕ) (r : Bool × Scan) → size r.1 ≤ n + 1 → Room n (name_end r)
unfolding name_end
name_end-Room n (true, s) l = (omega arith, inl refl)
name_end-Room n (false, s) l = elim (Bool-cases (here s == 35)) [
  | inl b ↦ rw b (omega (arith, offset_part-size s b), inl refl)
  | inr b ↦ rw b (omega arith, inr (λ z. omega (arith, length-rest_bytes s.rest)))
]

name_part-Room : (n : ℕ) (s : Scan) → size s ≤ n + 1 → Room n (name_part s)
unfolding name_part
name_part-Room n s l =
    let s₁ = copy_name s.rest s.prev s.out in
    let m = size-copy_name s.rest s.prev s.out in
    elim (Bool-cases (here s₁ == 59)) [
      | inl b ↦ rw b (name_end-Room n (version_part s₁) (omega (arith, version_part-size s₁)))
      | inr b ↦ rw b (name_end-Room n (false, s₁) (omega arith))
    ]

with_slash_lem :
    (s : Scan) → (length (with_slash s).out ≤ length s.out + 1) × ((with_slash s).rest ≡ s.rest)
unfolding with_slash
with_slash_lem s = elim (Bool-cases (first_byte s.out == 47)) [
  | inl b ↦ rw b (omega arith, refl)
  | inr b ↦ rw b (omega arith, refl)
]

canon_step-Room : (n : ℕ) (s : Scan) → size s ≤ n → Room n (canon_step s)
unfolding canon_step
canon_step-Room n s l =
    let s₁ = with_slash s in
    let (g, e) = with_slash_lem s in
    let rest = (skip_slashes s₁.rest s₁.prev).0 in
    let prev = (skip_slashes s₁.rest s₁.prev).1 in
    let m = length-skip_slashes s₁.rest s₁.prev in
    let m' : length s₁.rest ≡ length s.rest = rw e refl in
    let s₂ : Scan = record { rest = rest; prev = prev; out = s₁.out } in
    let a = second_byte rest in
    let b = second_byte (rest_bytes rest) in
    let d = length-rest_bytes rest in
    let d' = length-rest_bytes (rest_bytes rest) in
    let d'' = length-rest_bytes (rest_bytes (rest_bytes rest)) in
    elim (Bool-cases ((here s₂ == 46) && ltb 1 (length rest) && ((a == 47) || path_end a))) [
      | inl p ↦ rw p (omega arith, inr (λ z. omega arith))
      | inr p ↦
          rw p
            (elim (Bool-cases (
              ends_joker s₂.out
              && (here s₂ == 46)
              && ltb 2 (length rest)
              && (a == 46)
              && ((b == 47) || path_end b))) [
                | inl q ↦ rw q (
                  omega (arith, length-drop 4 s₂.out),
                  inr (λ z. omega (arith, length-drop 4 s₂.out)),
                )
                | inr q ↦ rw q (name_part-Room n s₂ (omega arith))
              ])
    ]

-- With room for one byte more than the result and the rest have, no turn writes behind the buffer.
overruns_not :
    (pathmax : ℕ) (s : Scan) → 0 < length s.rest → size s + 1 ≤ pathmax → overruns pathmax s ≡ false
unfolding overruns
overruns_not pathmax s z l =
    let (g, e) = with_slash_lem s in
    let (k, t) = canon_step-Room (size s) s (omega arith) in ground arith

-- The loop ends when it may take one turn more than the rest has bytes and the buffer has room for
-- one byte more than the result and the rest have. The end of the result stays.
pub canon_loop_lem :
    (pathmax n m : ℕ) (s : Scan)
    → length s.rest < n
    → (0 < length s.rest → size s ≤ m)
    → length s.out ≤ m + 1
    → m + 1 ≤ pathmax
    → (s' : Scan) × (canon_loop pathmax n s ≡ some s')
      × (length s'.out ≤ m + 1)
      × (Ends s.out → Ends s'.out)
unfolding canon_loop
canon_loop_lem pathmax zero m s l h k r = absurd (omega arith)
canon_loop_lem pathmax (suc n) m s l h k r = elim (Bool-cases (path_end (here s))) [
  | inl b ↦ rw b (s, refl, k, λ x. x)
  | inr b ↦
      let z = not_empty s.rest b in
      let (u, t) = canon_step-Turns s z in
      let (v, w) = canon_step-Room m s (h z) in
      let o = overruns_not pathmax s z (omega (arith, h z)) in
      rw (b, o)
        (elim (Bool-cases (canon_step s).0) [
          | inl d ↦ rw d ((canon_step s).1, refl, v, u)
          | inr d ↦
              let (s', e, x, y) =
                canon_loop_lem pathmax n m (canon_step s).1
                  (elim t [ inl c ↦ absurd (ground arith) | inr c ↦ omega arith ])
                  (elim w [ inl c ↦ absurd (ground arith) | inr c ↦ c ]) v r in
              rw d (s', e, x, λ i. y (u i))
        ])
]
