-- ===== src/Env/Init.antt =====
-- The loop over the boot environment, `env_init` of src/core/env.c.
use osz.Base.{
  ℕ, zero, suc, ◌%◌, ◌^◌, true, not, ◌&&◌, ◌||◌, Option, none, some, List, [], ◌∷◌, drop, length,
  ◌==◌, if◌then◌else◌,
}
use osz.Base.Text.{codes, first_byte}
use osz.Env.Parse.{
  Env, Platform, env_dec, env_bool, env_display, env_debug, begins, skip_line, has_key,
  platform_env, platform_parse,
}

-- The loop that should skip a comment, with the byte before the text.
unfoldable pub block_comment : (before : ℕ) → List ℕ → List ℕ
block_comment before [] = []
block_comment before (c ∷ s) =
    let rest = block_comment c s in
    if not (c == 0) && not (before == 42) && not (c == 47) then rest else c ∷ s

unfoldable pub skip_comments : List ℕ → List ℕ
skip_comments s =
    let t = if begins 47 47 s || (first_byte s == 35) then skip_line s else s in
    if begins 47 42 t then block_comment 42 (drop 2 t) else t

-- The first three keys, with the parsers of their values
unfoldable pub parse_limit : List ℕ → Env → Option (List ℕ × Env)
parse_limit s e =
    let (s1, v1) = env_dec (drop 9 s) e.nrphymax 2 128 in
    let (s2, v2) = env_dec (drop 8 s) e.nrmqmax 1 447 in
    let (s3, v3) = env_dec (drop 9 s) e.nrlogmax 4 128 in
    if has_key (codes "nrphymax=") s
    then some (s1, record e { nrphymax = v1 })
    else if has_key (codes "nrmqmax=") s
    then some (s2, record e { nrmqmax = v2 })
    else if has_key (codes "nrlogmax=") s
    then some (s3, record e { nrlogmax = v3 })
    else none

-- The next three
unfoldable pub parse_switch : List ℕ → Env → Option (List ℕ × Env)
parse_switch s e =
    let (s1, v1) = env_bool (drop 7 s) in
    let (s2, v2) = env_bool (drop 11 s) in
    let (s3, v3) = env_bool (drop 6 s) in
    if has_key (codes "syslog=") s
    then some (s1, record e { syslog = v1 })
    else if has_key (codes "networking=") s
    then some (s2, record e { networking = v2 })
    else if has_key (codes "sound=") s
    then some (s3, record e { sound = v3 })
    else none

-- The last three
unfoldable pub parse_mode : (junk : ℕ) → List ℕ → Env → Option (List ℕ × Env)
parse_mode junk s e =
    let (s1, v1) = env_dec (drop 8 s) e.tmp 10 10000 in
    let (s2, v2) = env_display junk (drop 8 s) in
    let (s3, v3) = env_debug junk (drop 6 s) in
    if has_key (codes "quantum=") s
    then some (s1, record e { tmp = v1; quantum = v1 % 2 ^ 32 })
    else if has_key (codes "display=") s
    then some (s2, record e { display = v2 })
    else if has_key (codes "debug=") s
    then some (s3, record e { debug = v3 })
    else none

unfoldable pub orelse {ℓ} : {A : Type ℓ} → Option A → A → A
orelse none a = a
orelse (some b) a = b

unfoldable pub parse_key : Platform → (junk : ℕ) → List ℕ → Env → List ℕ × Env
parse_key p junk s e =
    orelse (parse_limit s e)
      (orelse (parse_switch s e) (orelse (parse_mode junk s e) (platform_parse p junk s e)))

-- `if(env>=env_end)`
unfoldable pub at_end {ℓ} : {A : Type ℓ} → List ℕ → A → A → A
at_end [] a b = a
at_end (c ∷ s) a b = b

-- The loop, for at most `n` turns; `none` when they are not enough.
unfoldable pub init_loop : (n : ℕ) → Platform → (junk : ℕ) → List ℕ → Env → Option Env
init_loop n p junk [] e = some e
init_loop zero p junk (c ∷ s) e = none
init_loop (suc n) p junk (c ∷ s) e =
    let t = skip_comments (c ∷ s) in
    let (rest, e') = parse_key p junk t e in
    let next = init_loop n p junk rest e' in if c == 0 then some e else at_end t (some e) next

-- The defaults, the platform's variables, and the loop, which is given a turn for each byte.
unfoldable pub env_init : Platform → (junk : ℕ) → List ℕ → Env → Option Env
env_init p junk s e = init_loop (length s) p junk s (
    platform_env p record e {
      networking = true;
      sound = true;
      syslog = true;
      nrphymax = 8;
      nrlogmax = 8;
      nrmqmax = 1;
      quantum = 100;
      display = 0;
      debug = 0;
      tmp = junk;
    })
