-- ===== src/Env/Values.antt =====
-- What the parsers of values of src/core/env.c leave of the text, and the bounds of the values.
use osz.Base.{
  ℕ, ◌*◌, ◌≤◌, ◌||◌, List, [], ◌∷◌, ◌==◌, if◌then◌else◌, add64, sub64, u64, inl, inr, Bool-cases,
  drop, length, length-drop, arith,
}
use osz.Base.Text.{first_byte}
use osz.Numbers.{is_dec, is_hex, hex_digit, is_0x, clamp, hex_loop, dec_loop}
use osz.Env.Parse.{
  Platform, ibmpc, acpi, env_hex, env_dec, env_display, env_debug, begins, skip_line, skip_blanks,
  display_named, debug_loop, debug_flags, clock_named, env_cs,
}

pub hex_loop_shorter : (s : List ℕ) (v : ℕ) → length (hex_loop s v).0 ≤ length s
unfolding hex_loop
hex_loop_shorter [] v = omega arith
hex_loop_shorter (c ∷ s) v = elim (Bool-cases (is_hex (first_byte s))) [
  | inl e ↦ rw e (omega (arith, hex_loop_shorter s (add64 (u64 (v * 16)) (hex_digit c))))
  | inr e ↦ rw e (omega arith)
]

dec_loop_shorter : (s : List ℕ) (v : ℕ) → length (dec_loop s v).0 ≤ length s
unfolding dec_loop
dec_loop_shorter [] v = omega arith
dec_loop_shorter (c ∷ s) v = elim (Bool-cases (is_dec (first_byte s))) [
  | inl e ↦ rw e (omega (arith, dec_loop_shorter s (add64 (u64 (v * 10)) (sub64 c 48))))
  | inr e ↦ rw e (omega arith)
]

pub drop_shorter : (n : ℕ) (s : List ℕ) → length (drop n s) ≤ length s
drop_shorter n s = omega (arith, length-drop n s)

pub clamp_in :
    (min max v : ℕ) → min ≤ max → 1 ≤ max → (min ≤ clamp min max v) × (clamp min max v ≤ max)
clamp_in min max v h k = (ground arith, ground arith)

-- What a parser of numbers gives
abbrev pub IsParsed : List ℕ → (min max : ℕ) → List ℕ × ℕ → Type 0
IsParsed s min max (rest, v) = (length rest ≤ length s) × ((min ≤ v) × (v ≤ max))

pub env_hex-IsParsed :
    (s : List ℕ) (v min max : ℕ) → min ≤ max → 1 ≤ max → IsParsed s min max (env_hex s v min max)
unfolding env_hex
env_hex-IsParsed s v min max h k = elim (Bool-cases (is_0x s)) [
  | inl e ↦ rw e (
    omega (arith, hex_loop_shorter (drop 2 s) v, drop_shorter 2 s),
    clamp_in min max (hex_loop (drop 2 s) v).1 h k,
  )
  | inr e ↦ rw e (hex_loop_shorter s v, clamp_in min max (hex_loop s v).1 h k)
]

pub env_dec-IsParsed :
    (s : List ℕ) (v min max : ℕ) → min ≤ max → 1 ≤ max → IsParsed s min max (env_dec s v min max)
unfolding env_dec
env_dec-IsParsed s v min max h k = elim (Bool-cases (is_0x s)) [
  | inl e ↦
      let (l, b) = env_hex-IsParsed (drop 2 s) v min max h k in
      rw e (omega (arith, l, drop_shorter 2 s), b)
  | inr e ↦ rw e (dec_loop_shorter s 0, clamp_in min max (dec_loop s 0).1 h k)
]

pub skip_line_shorter : (s : List ℕ) → length (skip_line s) ≤ length s
unfolding skip_line
skip_line_shorter [] = omega arith
skip_line_shorter (c ∷ s) = elim (Bool-cases ((c == 0) || (c == 10))) [
  | inl e ↦ rw e (omega arith)
  | inr e ↦ rw e (omega (arith, skip_line_shorter s))
]

skip_blanks_shorter : (s : List ℕ) → length (skip_blanks s) ≤ length s
unfolding skip_blanks
skip_blanks_shorter [] = omega arith
skip_blanks_shorter (c ∷ s) = elim (Bool-cases ((c == 32) || (c == 9))) [
  | inl e ↦ rw e (omega (arith, skip_blanks_shorter s))
  | inr e ↦ rw e (omega arith)
]

-- A parser of a name or a number of at most 3
abbrev pub Small : List ℕ → List ℕ × ℕ → Type 0
Small s (rest, v) = (length rest ≤ length s) × (v ≤ 3)

display_named_le : (s : List ℕ) → display_named s ≤ 3
unfolding display_named
display_named_le s = elim (Bool-cases (begins 109 99 s)) [
  | inl a ↦ rw a (omega arith)
  | inr a ↦ elim (Bool-cases (begins 115 109 s || begins 97 110 s)) [
    | inl b ↦ rw (a, b) (omega arith)
    | inr b ↦ elim (Bool-cases (begins 115 99 s || begins 114 101 s)) [
      | inl c ↦ rw (a, b, c) (omega arith)
      | inr c ↦ rw (a, b, c) (omega arith)
    ]
  ]
]

pub env_display-Small : (junk : ℕ) (s : List ℕ) → Small s (env_display junk s)
unfolding env_display display_named
env_display-Small junk s =
    let (l, (a, b)) = env_dec-IsParsed s junk 0 3 (omega arith) (omega arith) in
    elim (Bool-cases (is_dec (first_byte s))) [
      | inl e ↦ rw e (l, omega (arith, b))
      | inr e ↦ rw e (
        omega (arith, skip_line_shorter (skip_blanks s), skip_blanks_shorter s),
        display_named_le (skip_blanks s),
      )
    ]

clock_named_le : (p : Platform) (s : List ℕ) → clock_named p s ≤ 3
unfolding clock_named
clock_named_le ibmpc s = elim (Bool-cases (begins 114 116 s)) [
  | inl a ↦ rw a (omega arith)
  | inr a ↦ elim (Bool-cases (begins 112 105 s)) [
    | inl b ↦ rw (a, b) (omega arith)
    | inr b ↦ rw (a, b) (omega arith)
  ]
]
clock_named_le acpi s = elim (Bool-cases (begins 112 105 s)) [
  | inl a ↦ rw a (omega arith)
  | inr a ↦ elim (Bool-cases (begins 104 112 s)) [
    | inl b ↦ rw (a, b) (omega arith)
    | inr b ↦ rw (a, b) (omega arith)
  ]
]

pub env_cs-Small : (p : Platform) (junk : ℕ) (s : List ℕ) → Small s (env_cs p junk s)
unfolding env_cs
env_cs-Small p junk s =
    let (l, (a, b)) = env_dec-IsParsed s junk 0 3 (omega arith) (omega arith) in
    elim (Bool-cases (is_dec (first_byte s))) [
      | inl e ↦ rw e (l, omega (arith, b))
      | inr e ↦ rw e (
        omega (arith, skip_line_shorter (skip_blanks s), skip_blanks_shorter s),
        clock_named_le p (skip_blanks s),
      )
    ]

debug_loop_shorter : (s : List ℕ) (d : ℕ) → length (debug_loop s d).0 ≤ length s
unfolding debug_loop
debug_loop_shorter [] d = omega arith
debug_loop_shorter (c ∷ s) d =
    let next =
      debug_loop_shorter s
        (if (c == 32) || (c == 9) || (c == 44) then d else debug_flags (c ∷ s) d) in
    elim (Bool-cases ((c == 0) || (c == 10))) [
      | inl e ↦ rw e (omega arith)
      | inr e ↦ elim (Bool-cases (begins 102 97 (c ∷ s) || begins 110 111 (c ∷ s))) [
        | inl g ↦ rw (e, g) (omega arith)
        | inr g ↦ rw (e, g) (omega (arith, next))
      ]
    ]

pub env_debug_shorter : (junk : ℕ) (s : List ℕ) → length (env_debug junk s).0 ≤ length s
unfolding env_debug
env_debug_shorter junk s =
    let (l, b) = env_dec-IsParsed s junk 0 65535 (omega arith) (omega arith) in
    elim (Bool-cases (is_dec (first_byte s))) [
      | inl e ↦ rw e l
      | inr e ↦ rw e (debug_loop_shorter s 0)
    ]
