-- ===== src/Env/Keys.antt =====
-- One `key=value` of the boot environment, src/core/env.c: the text that is left, and the bounds.
use osz.Base.{
  ℕ, ◌-◌, ◌*◌, ◌<◌, ◌≤◌, ◌≡◌, Option, none, some, List, [], ◌∷◌, inl, inr, Bool-cases, drop, length,
  length-drop, arith,
}
use osz.Base.Text.{codes, rest_bytes}
use osz.Numbers.{is_0x}
use osz.Env.Parse.{
  Env, Platform, ibmpc, acpi, env_hex, env_bool, has_key, parse_clock, platform_parse,
}
use osz.Env.Values.{
  hex_loop_shorter, drop_shorter, env_dec-IsParsed, env_display-Small, env_cs-Small,
  env_debug_shorter,
}
use osz.Env.Init.{parse_limit, parse_switch, parse_mode, orelse, parse_key}

-- The limits of the parameters
abbrev pub IsBounded : Env → Type 0
IsBounded e =
    ((2 ≤ e.nrphymax) × (e.nrphymax ≤ 128))
    × ((1 ≤ e.nrmqmax) × (e.nrmqmax ≤ 447))
    × ((4 ≤ e.nrlogmax) × (e.nrlogmax ≤ 128))
    × ((10 ≤ e.quantum) × (e.quantum ≤ 10000))
    × (e.display ≤ 3)
    × (e.clocksource ≤ 3)

-- What a turn of the loop leaves
abbrev pub Good : List ℕ → List ℕ × Env → Type 0
Good s (rest, e) = (length rest < length s) × IsBounded e

abbrev GoodOption : List ℕ → Option (List ℕ × Env) → Type 0
GoodOption s none = Unit {0}
GoodOption s (some r) = Good s r

orelse-Good :
    (s : List ℕ) (o : Option (List ℕ × Env)) (r : List ℕ × Env)
    → GoodOption s o
    → Good s r
    → Good s (orelse o r)
unfolding orelse
orelse-Good s none r g h = h
orelse-Good s (some q) r g h = g

parse_limit-Good :
    (s : List ℕ) (e : Env) → 1 ≤ length s → IsBounded e → GoodOption s (parse_limit s e)
unfolding parse_limit
parse_limit-Good s e l (a, b, c, d, f, g) =
    let (l1, v1) = env_dec-IsParsed (drop 9 s) e.nrphymax 2 128 (omega arith) (omega arith) in
    let (l2, v2) = env_dec-IsParsed (drop 8 s) e.nrmqmax 1 447 (omega arith) (omega arith) in
    let (l3, v3) = env_dec-IsParsed (drop 9 s) e.nrlogmax 4 128 (omega arith) (omega arith) in
    elim (Bool-cases (has_key (codes "nrphymax=") s)) [
      | inl h ↦ rw h (omega (arith, l, l1, length-drop 9 s), (v1, b, c, d, f, g))
      | inr h ↦ elim (Bool-cases (has_key (codes "nrmqmax=") s)) [
        | inl i ↦ rw (h, i) (omega (arith, l, l2, length-drop 8 s), (a, v2, c, d, f, g))
        | inr i ↦ elim (Bool-cases (has_key (codes "nrlogmax=") s)) [
          | inl j ↦ rw (h, i, j) (omega (arith, l, l3, length-drop 9 s), (a, b, v3, d, f, g))
          | inr j ↦ rw (h, i, j) tt
        ]
      ]
    ]

length-rest_bytes : (s : List ℕ) → length (rest_bytes s) ≡ length s - 1
length-rest_bytes [] = omega arith
length-rest_bytes (c ∷ s) = omega arith

parse_switch-Good :
    (s : List ℕ) (e : Env) → 1 ≤ length s → IsBounded e → GoodOption s (parse_switch s e)
unfolding parse_switch env_bool
parse_switch-Good s e l b = elim (Bool-cases (has_key (codes "syslog=") s)) [
  | inl h ↦ rw h (omega (arith, l, length-rest_bytes (drop 7 s), length-drop 7 s), b)
  | inr h ↦ elim (Bool-cases (has_key (codes "networking=") s)) [
    | inl i ↦ rw (h, i) (omega (arith, l, length-rest_bytes (drop 11 s), length-drop 11 s), b)
    | inr i ↦ elim (Bool-cases (has_key (codes "sound=") s)) [
      | inl j ↦ rw (h, i, j) (omega (arith, l, length-rest_bytes (drop 6 s), length-drop 6 s), b)
      | inr j ↦ rw (h, i, j) tt
    ]
  ]
]

parse_mode-Good :
    (junk : ℕ) (s : List ℕ) (e : Env)
    → 1 ≤ length s
    → IsBounded e
    → GoodOption s (parse_mode junk s e)
unfolding parse_mode
parse_mode-Good junk s e l (a, b, c, d, f, g) =
    let (l1, (v1, w1)) = env_dec-IsParsed (drop 8 s) e.tmp 10 10000 (omega arith) (omega arith) in
    let (l2, v2) = env_display-Small junk (drop 8 s) in
    let l3 = env_debug_shorter junk (drop 6 s) in
    elim (Bool-cases (has_key (codes "quantum=") s)) [
      | inl h ↦ rw h (
        omega (arith, l, l1, length-drop 8 s),
        (a, b, c, (omega (arith, v1, w1), omega (arith, v1, w1)), f, g),
      )
      | inr h ↦ elim (Bool-cases (has_key (codes "display=") s)) [
        | inl i ↦ rw (h, i) (omega (arith, l, l2, length-drop 8 s), (a, b, c, d, v2, g))
        | inr i ↦ elim (Bool-cases (has_key (codes "debug=") s)) [
          | inl j ↦ rw (h, i, j) (omega (arith, l, l3, length-drop 6 s), (a, b, c, d, f, g))
          | inr j ↦ rw (h, i, j) tt
        ]
      ]
    ]

parse_clock-Good :
    (p : Platform) (junk : ℕ) (s : List ℕ) (e : Env)
    → 1 ≤ length s
    → IsBounded e
    → Good s (parse_clock p junk s e)
parse_clock-Good p junk s e l (a, b, c, d, f, g) =
    let (l1, v1) = env_cs-Small p junk (drop 6 s) in
    elim (Bool-cases (has_key (codes "clock=") s)) [
      | inl h ↦ rw h (omega (arith, l, l1, length-drop 6 s), (a, b, c, d, f, v1))
      | inr h ↦ rw h (omega (arith, l, length-rest_bytes s), (a, b, c, d, f, g))
    ]

env_hex_shorter : (s : List ℕ) (v min max : ℕ) → length (env_hex s v min max).0 ≤ length s
unfolding env_hex
env_hex_shorter s v min max = elim (Bool-cases (is_0x s)) [
  | inl e ↦ rw e (omega (arith, hex_loop_shorter (drop 2 s) v, drop_shorter 2 s))
  | inr e ↦ rw e (hex_loop_shorter s v)
]

platform_parse-Good :
    (p : Platform) (junk : ℕ) (s : List ℕ) (e : Env)
    → 1 ≤ length s
    → IsBounded e
    → Good s (platform_parse p junk s e)
unfolding platform_parse
platform_parse-Good ibmpc junk s e l v = parse_clock-Good ibmpc junk s e l v
platform_parse-Good acpi junk s e l (a, b, c, d, f, g) =
    let l1 = env_hex_shorter (drop 5 s) e.hpet (1024 * 1024) 0 in
    let l2 = env_hex_shorter (drop 5 s) e.apic (1024 * 1024) 0 in
    let l3 = env_hex_shorter (drop 7 s) e.ioapic (1024 * 1024) 0 in
    elim (Bool-cases (has_key (codes "hpet=") s)) [
      | inl h ↦ rw h (omega (arith, l, l1, length-drop 5 s), (a, b, c, d, f, omega arith))
      | inr h ↦ elim (Bool-cases (has_key (codes "apic=") s)) [
        | inl i ↦ rw (h, i) (omega (arith, l, l2, length-drop 5 s), (a, b, c, d, f, g))
        | inr i ↦ elim (Bool-cases (has_key (codes "ioapic=") s)) [
          | inl j ↦ rw (h, i, j) (omega (arith, l, l3, length-drop 7 s), (a, b, c, d, f, g))
          | inr j ↦ rw (h, i, j) (parse_clock-Good acpi junk s e l (a, b, c, d, f, g))
        ]
      ]
    ]

pub parse_key-Good :
    (p : Platform) (junk : ℕ) (s : List ℕ) (e : Env)
    → 1 ≤ length s
    → IsBounded e
    → Good s (parse_key p junk s e)
unfolding parse_key
parse_key-Good p junk s e l v = orelse-Good s (parse_limit s e) _ (parse_limit-Good s e l v) (
    orelse-Good s (parse_switch s e) _ (parse_switch-Good s e l v) (
      orelse-Good s (parse_mode junk s e) _ (parse_mode-Good junk s e l v)
        (platform_parse-Good p junk s e l v)))
