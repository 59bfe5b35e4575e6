-- ===== src/Paths/Parts.antt =====
-- What the parts of `canonize` do to the rest of the path, which gets shorter, and to the start of
-- the result, which stays.
use osz.Base.{
  ℕ, ◌-◌, ◌≤◌, ◌<◌, ◌≡◌, ◌≢◌, ◌⊎◌, inl, inr, refl, ap, Bool, true, false, ◌&&◌, ◌||◌, List, [], ◌∷◌,
  length, drop, Bool-cases, ltb, leb, ◌==◌, if◌then◌else◌, arith,
}
use osz.Base.Text.{first_byte, rest_bytes}
use osz.Paths.{
  Scan, path_end, here, advance, emit, skip_slashes, copy_name, copy_digits, skip_sign, is_digit,
  second_byte, version_part, offset_part, name_end, name_part, ends_joker, with_slash, canon_step,
  drop_dots, drop_slash,
}

-- The end of a reversed result that starts with `/dev/` and a zero.
abbrev pub dev_end : List ℕ
dev_end = 0 ∷ 47 ∷ 118 ∷ 101 ∷ 100 ∷ 47 ∷ []

abbrev pub Ends : List ℕ → Type 0
Ends [] = ⊥
Ends (c ∷ out) = (c ∷ out ≡ dev_end) ⊎ Ends out

-- Whatever is taken off but a zero is not of this end.
Ends-tail : (c : ℕ) (out : List ℕ) → c ≢ 0 → Ends (c ∷ out) → Ends out
Ends-tail c out n (inl e) = ground arith
Ends-tail c out n (inr h) = h

pub drop_slash-Ends : (out : List ℕ) → Ends out → Ends (drop_slash out)
drop_slash-Ends [] h = elim h [ ]
drop_slash-Ends (c ∷ out) h = elim (Bool-cases (c == 47)) [
  | inl b ↦ rw b (Ends-tail c out (ground arith) h)
  | inr b ↦ rw b h
]

pub drop_dots-Ends : (out : List ℕ) → Ends out → Ends (drop_dots out)
unfolding drop_dots
drop_dots-Ends [] h = elim h [ ]
drop_dots-Ends (c ∷ out) h = elim (Bool-cases (c == 46)) [
  | inl b ↦ rw b (drop_dots-Ends out (Ends-tail c out (ground arith) h))
  | inr b ↦ rw b h
]

pub length-skip_slashes : (p : List ℕ) (prev : ℕ) → length (skip_slashes p prev).0 ≤ length p
unfolding skip_slashes
length-skip_slashes [] prev = omega arith
length-skip_slashes (c ∷ p) prev = ground (arith, length-skip_slashes p c)

copy_name_lem :
    (p : List ℕ) (prev : ℕ) (out : List ℕ)
    → (length (copy_name p prev out).rest ≤ length p) × (Ends out → Ends (copy_name p prev out).out)
unfolding copy_name
copy_name_lem [] prev out = (omega arith, λ h. h)
copy_name_lem (c ∷ p) prev out =
    let (l, k) = copy_name_lem p c (c ∷ out) in
    elim (Bool-cases ((c == 47) || path_end c)) [
      | inl b ↦ rw b (omega arith, λ h. h)
      | inr b ↦ rw b (omega arith, λ h. k (inr h))
    ]

copy_digits-Ends :
    (p : List ℕ) (prev : ℕ) (out : List ℕ) → Ends out → Ends (copy_digits p prev out).out
unfolding copy_digits
copy_digits-Ends [] prev out h = h
copy_digits-Ends (c ∷ p) prev out h = elim (Bool-cases (leb 48 c && leb c 57)) [
  | inl b ↦ rw b (copy_digits-Ends p c (c ∷ out) (inr h))
  | inr b ↦ rw b h
]

-- What a part does: the rest is no longer than `n`, and the end of the result stays.
abbrev Keeps : ℕ → Scan → Scan → Type 0
Keeps n s s' = (length s'.rest ≤ n) × (Ends s.out → Ends s'.out)

length-rest_bytes : (p : List ℕ) → length (rest_bytes p) ≤ length p - 1
length-rest_bytes [] = omega arith
length-rest_bytes (c ∷ p) = omega arith

skip_sign-Keeps : (s : Scan) → Keeps (length s.rest) s (skip_sign s)
skip_sign-Keeps s = elim (Bool-cases (here s == 45)) [
  | inl b ↦ rw b (omega (arith, length-rest_bytes s.rest), λ h. h)
  | inr b ↦ rw b (omega arith, λ h. h)
]

version_part-Keeps : (s : Scan) → Keeps (length s.rest) s (version_part s).1
unfolding version_part
version_part-Keeps s =
    let s₁ = skip_sign (advance s) in
    let next = second_byte s₁.rest in
    let (l, k) = skip_sign-Keeps (advance s) in
    let a = length-rest_bytes s.rest in
    let b = length-rest_bytes s₁.rest in
    elim (Bool-cases (first_byte s.out == 47)) [
      | inl d ↦ rw d (omega arith, λ h. h)
      | inr d ↦
          rw d
            (elim (Bool-cases
              (ltb 1 (length s₁.rest) && is_digit (here s₁) && ((next == 35) || (next == 0)))) [
                | inl q ↦ rw q (omega arith, λ h. inr (inr (k h)))
                | inr q ↦ rw q (omega arith, k)
              ])
    ]

offset_part-Ends : (s : Scan) → Ends s.out → Ends (offset_part s).out
unfolding offset_part
offset_part-Ends s h =
    let s₁ = skip_sign (advance s) in
    let s₂ = if s₁.prev == 45 then emit 45 (emit 35 s₁) else emit 35 s₁ in
    let h₁ = (skip_sign-Keeps (advance s)).1 h in
    let h₂ : Ends s₂.out = elim (Bool-cases (s₁.prev == 45)) [
      | inl b ↦ rw b (inr (inr h₁))
      | inr b ↦ rw b (inr h₁)
    ] in
    elim (Bool-cases (first_byte s.out == 47)) [
      | inl b ↦ rw b h
      | inr b ↦ rw b (elim (Bool-cases (is_digit (here s₁))) [
        | inl q ↦ rw q (copy_digits-Ends s₂.rest s₂.prev s₂.out h₂)
        | inr q ↦ rw q h₁
      ])
    ]

-- A turn of the loop: the end of the result stays, and the loop ends or the rest has fewer than `n`
-- bytes.
abbrev pub Turns : ℕ → Scan → Bool × Scan → Type 0
Turns n s (stop, s') = (Ends s.out → Ends s'.out) × ((stop ≡ true) ⊎ (length s'.rest < n))

name_end-Turns :
    (n : ℕ) (s : Scan) (r : Bool × Scan)
    → 0 < n
    → length r.1.rest ≤ n
    → (Ends s.out → Ends r.1.out)
    → Turns n s (name_end r)
unfolding name_end
name_end-Turns n s (true, s') z l k = (k, inl refl)
name_end-Turns n s (false, s') z l k = elim (Bool-cases (here s' == 35)) [
  | inl b ↦ rw b (λ h. offset_part-Ends s' (k h), inl refl)
  | inr b ↦ rw b (k, inr (omega (arith, length-rest_bytes s'.rest)))
]

name_part-Turns : (n : ℕ) (s : Scan) → 0 < n → length s.rest ≤ n → Turns n s (name_part s)
unfolding name_part
name_part-Turns n s z l =
    let s₁ = copy_name s.rest s.prev s.out in
    let (m, k) = copy_name_lem s.rest s.prev s.out in
    elim (Bool-cases (here s₁ == 59)) [
      | inl b ↦
          let (v, w) = version_part-Keeps s₁ in
          rw b (name_end-Turns n s (version_part s₁) z (omega arith) (λ h. w (k h)))
      | inr b ↦ rw b (name_end-Turns n s (false, s₁) z (omega arith) k)
    ]

-- `.../` taken off
drop_joker-Ends : (out : List ℕ) → ends_joker out ≡ true → Ends out → Ends (drop 4 out)
unfolding ends_joker
drop_joker-Ends (a ∷ b ∷ c ∷ d ∷ x ∷ out) j h = Ends-tail d (x ∷ out) (ground arith) (
    Ends-tail c (d ∷ x ∷ out) (ground arith) (
      Ends-tail b (c ∷ d ∷ x ∷ out) (ground arith)
        (Ends-tail a (b ∷ c ∷ d ∷ x ∷ out) (ground arith) h)))
drop_joker-Ends [] j h = elim h [ ]
drop_joker-Ends (a ∷ []) j h = ground arith
drop_joker-Ends (a ∷ b ∷ []) j h = ground arith
drop_joker-Ends (a ∷ b ∷ c ∷ []) j h = ground arith
drop_joker-Ends (a ∷ b ∷ c ∷ d ∷ []) j h = ground arith

pub canon_step-Turns : (s : Scan) → 0 < length s.rest → Turns (length s.rest) s (canon_step s)
unfolding canon_step with_slash
canon_step-Turns s z =
    let s₁ = with_slash s in
    let h₁ : Ends s.out → Ends s₁.out =
      λ h. elim (Bool-cases (first_byte s.out == 47)) [ inl b ↦ rw b h | inr b ↦ rw b (inr h) ] in
    let r₁ : s₁.rest ≡ s.rest = ground arith in
    let rest = (skip_slashes s₁.rest s₁.prev).0 in
    let prev = (skip_slashes s₁.rest s₁.prev).1 in
    let m : length rest ≤ length s.rest =
      omega (arith, length-skip_slashes s₁.rest s₁.prev, ap length r₁) in
    let s₂ : Scan = record { rest = rest; prev = prev; out = s₁.out } in
    let a = second_byte rest in
    let b = second_byte (rest_bytes rest) in
    let d = length-rest_bytes rest in
    let d' = length-rest_bytes (rest_bytes rest) in
    let d'' = length-rest_bytes (rest_bytes (rest_bytes rest)) in
    elim (Bool-cases ((here s₂ == 46) && ltb 1 (length rest) && ((a == 47) || path_end a))) [
      | inl p ↦ rw p (h₁, inr (omega arith))
      | inr p ↦
          rw p
            (elim (Bool-cases (
              ends_joker s₂.out
              && (here s₂ == 46)
              && ltb 2 (length rest)
              && (a == 46)
              && ((b == 47) || path_end b))) [
                | inl q ↦
                    rw q (λ h. drop_joker-Ends s₂.out (ground arith) (h₁ h), inr (omega arith))
                | inr q ↦
                    let (k, t) = name_part-Turns (length s.rest) s₂ z m in rw q (λ h. k (h₁ h), t)
              ])
    ]

pub not_empty : (p : List ℕ) → path_end (first_byte p) ≡ false → 0 < length p
not_empty [] b = ground arith
not_empty (c ∷ p) b = omega arith
