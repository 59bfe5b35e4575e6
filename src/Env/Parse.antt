-- ===== src/Env/Parse.antt =====
-- The parameters of the boot environment, src/core/env.c, and of the platforms.
use osz.Base.{
  ℕ, ◌*◌, ◌%◌, ◌^◌, bit_or, Bool, not, ◌&&◌, ◌||◌, List, [], ◌∷◌, drop, length, ◌==◌, if◌then◌else◌,
}
use osz.Base.Text.{codes, first_byte, rest_bytes, kmemcmp}
use osz.Numbers.{is_dec, is_0x, clamp, hex_loop, dec_loop}

-- The variables of env.c, the clock source, the tables of the platform, and the local `tmp` of
-- `env_init`.
pub record Env : Type 0 where
  pub nrphymax : ℕ
  pub nrmqmax : ℕ
  pub nrlogmax : ℕ
  pub clocksource : ℕ
  pub debug : ℕ
  pub display : ℕ
  pub quantum : ℕ
  pub syslog : Bool
  pub networking : Bool
  pub sound : Bool
  pub hpet : ℕ
  pub apic : ℕ
  pub ioapic : ℕ
  pub tmp : ℕ

-- The loops are those of `stdlib_hex` and `stdlib_dec`; `v` is the value so far.
unfoldable pub env_hex : List ℕ → (v min max : ℕ) → List ℕ × ℕ
env_hex s v min max =
    let (rest, w) = hex_loop (if is_0x s then drop 2 s else s) v in (rest, clamp min max w)

unfoldable pub env_dec : List ℕ → (v min max : ℕ) → List ℕ × ℕ
env_dec s v min max =
    let (rest, w) = dec_loop s 0 in
    if is_0x s then env_hex (drop 2 s) v min max else (rest, clamp min max w)

-- Whether the text starts with the two bytes.
abbrev pub begins : ℕ → ℕ → List ℕ → Bool
begins a b s = (first_byte s == a) && (first_byte (rest_bytes s) == b)

-- `0`, `f`, `F`, `d`, `D`, `of` and `OF` are false.
unfoldable pub env_bool : List ℕ → List ℕ × Bool
env_bool s =
    let c = first_byte s in
    (
      rest_bytes s,
      not (
          (c == 48)
          || (c == 102)
          || (c == 70)
          || (c == 100)
          || (c == 68)
          || begins 111 102 s
          || begins 79 70 s),
    )

abbrev pub is_blank : ℕ → Bool
is_blank c = (c == 32) || (c == 9)

unfoldable pub skip_blanks : List ℕ → List ℕ
skip_blanks [] = []
skip_blanks (c ∷ s) = let rest = skip_blanks s in if is_blank c then rest else c ∷ s

-- To the end of the line
unfoldable pub skip_line : List ℕ → List ℕ
skip_line [] = []
skip_line (c ∷ s) = let rest = skip_line s in if (c == 0) || (c == 10) then c ∷ s else rest

-- `mc` 0, `sm` and `an` 1, `sc` and `re` 2
unfoldable pub display_named : List ℕ → ℕ
display_named s =
    if begins 109 99 s
    then 0
    else if begins 115 109 s || begins 97 110 s
    then 1
    else if begins 115 99 s || begins 114 101 s
    then 2
    else 0

-- The rest of the text and the value of `display`
unfoldable pub env_display : (junk : ℕ) → List ℕ → List ℕ × ℕ
env_display junk s =
    let (rest, v) = env_dec s junk 0 3 in
    let t = skip_blanks s in
    if is_dec (first_byte s) then (rest, v % 256) else (skip_line t, display_named t)

abbrev pub flag : Bool → ℕ → ℕ → ℕ
flag b mask debug = if b then bit_or debug mask else debug

-- The flags that the text at `s` names: `de`, `lo`, `ms`, `mm`, `ta`, `el`, `ri`, `re`, `ir`, `sc`,
-- `pm`, `vm`, `ma`, `bl`, `fs`, `te`; for `ri` and `re` the third byte may stand for the second.
unfoldable pub debug_flags : List ℕ → ℕ → ℕ
debug_flags s debug =
    let third : ℕ = first_byte (rest_bytes (rest_bytes s)) in
    let r : Bool = first_byte s == 114 in
    let d1 = flag (begins 108 111 s) 512 (flag (begins 100 101 s) 64 debug) in
    let d2 = flag (begins 109 109 s) 1 (flag (begins 109 115 s) 256 d1) in
    let d3 = flag (begins 101 108 s) 4 (flag (begins 116 97 s) 2 d2) in
    let d4 = flag (r && ((first_byte (rest_bytes s) == 105) || (third == 105))) 8 d3 in
    let d5 = flag (r && ((first_byte (rest_bytes s) == 101) || (third == 101))) 16 d4 in
    let d6 = flag (begins 115 99 s) 128 (flag (begins 105 114 s) 32 d5) in
    let d7 = flag (begins 118 109 s) 2048 (flag (begins 112 109 s) 1024 d6) in
    let d8 = flag (begins 98 108 s) 8192 (flag (begins 109 97 s) 4096 d7) in
    flag (begins 116 101 s) 131072 (flag (begins 102 115 s) 32768 d8)

-- The loop over the names; `fa` and `no` end it.
unfoldable pub debug_loop : List ℕ → ℕ → List ℕ × ℕ
debug_loop [] debug = ([], debug)
debug_loop (c ∷ s) debug =
    let next =
      debug_loop s (if is_blank c || (c == 44) then debug else debug_flags (c ∷ s) debug) in
    if (c == 0) || (c == 10)
    then (c ∷ s, debug)
    else if begins 102 97 (c ∷ s) || begins 110 111 (c ∷ s)
    then (c ∷ s, 0)
    else next

unfoldable pub env_debug : (junk : ℕ) → List ℕ → List ℕ × ℕ
env_debug junk s =
    let (rest, v) = env_dec s junk 0 65535 in
    if is_dec (first_byte s) then (rest, v % 2 ^ 16) else debug_loop s 0

-- The platforms of x86_64. `ibmpc` names PIT (2) and RTC (3), `acpi` HPET (1) and PIT.
pub data Platform : Type 0 where
  ibmpc acpi : Platform

unfoldable pub clock_named : Platform → List ℕ → ℕ
clock_named ibmpc s = if begins 114 116 s then 3 else if begins 112 105 s then 2 else 0
clock_named acpi s = if begins 112 105 s then 2 else if begins 104 112 s then 1 else 0

unfoldable pub env_cs : Platform → (junk : ℕ) → List ℕ → List ℕ × ℕ
env_cs p junk s =
    let (rest, v) = env_dec s junk 0 3 in
    let t = skip_blanks s in
    if is_dec (first_byte s) then (rest, v % 256) else (skip_line t, clock_named p t)

-- `!kmemcmp(env, key, strlen(key))`
abbrev pub has_key : List ℕ → List ℕ → Bool
has_key key s = kmemcmp (length key) s key

-- What `platform_env` sets of the variables here.
unfoldable pub platform_env : Platform → Env → Env
platform_env ibmpc e = record e { apic = 0; ioapic = 0; hpet = 0; clocksource = 2 }
platform_env acpi e = record e { apic = 0; ioapic = 0; hpet = 0 }

abbrev pub parse_clock : Platform → (junk : ℕ) → List ℕ → Env → List ℕ × Env
parse_clock p junk s e =
    let (rest, v) = env_cs p junk (drop 6 s) in
    if has_key (codes "clock=") s then (rest, record e { clocksource = v }) else (rest_bytes s, e)

unfoldable pub platform_parse : Platform → (junk : ℕ) → List ℕ → Env → List ℕ × Env
platform_parse ibmpc junk s e = parse_clock ibmpc junk s e
platform_parse acpi junk s e =
    let (rest, v) = env_hex (drop 5 s) e.hpet (1024 * 1024) 0 in
    let (rest', v') = env_hex (drop 5 s) e.apic (1024 * 1024) 0 in
    let (rest'', v'') = env_hex (drop 7 s) e.ioapic (1024 * 1024) 0 in
    if has_key (codes "hpet=") s
    then (rest, record e { hpet = v; clocksource = 1 })
    else if has_key (codes "apic=") s
    then (rest', record e { apic = v' })
    else if has_key (codes "ioapic=") s
    then (rest'', record e { ioapic = v'' })
    else parse_clock acpi junk s e
