-- ===== src/Env/Tests.antt =====
-- Boot environments and dates.
use osz.Env.Keys.{IsBounded}
use osz.Env.Signed.{env_getts-binary_bytes_signed}
use osz.Base.{ℕ, ◌≡◌, refl, true, false, some, List, [], ◌∷◌, arith, inr}
use osz.Base.Text.{codes, kmemcmp}
use osz.Numbers.{hex_loop, dec_loop}
use osz.Env.Date.{
  Date, env_getts, read_date, is_bcd, timestamp, add_time?, add_time, year_loop, month_loop,
  is_leap, month_days,
}
use osz.Env.Encoded.{
  IsDate, unix_time, bcd_bytes, binary_bytes, env_getts-bcd_bytes, env_getts-binary_bytes,
}
use osz.Env.Parse.{
  Env, ibmpc, env_dec, env_hex, platform_env, platform_parse, env_bool, env_display, env_debug,
  env_cs, skip_line, skip_blanks, display_named, clock_named,
}
use osz.Env.Init.{
  env_init, init_loop, at_end, skip_comments, parse_key, orelse, parse_limit, parse_switch,
  parse_mode, block_comment,
}
use osz.Env.Bounds.{env_init-IsBounded}
use osz.Env.Digits.{env_dec_digits}

-- A hexadecimal value stands behind the digits of what the variable held.
env_dec_0x : env_dec (codes "0x10 ") 8 2 0 ≡ (codes " ", 2064)
unfolding env_dec env_hex hex_loop dec_loop
env_dec_0x = refl

-- 29 February 2024, 12:30:15
abbrev leap_day : Date
leap_day = record { y = 2024; m = 2; d = 29; h = 12; i = 30; s = 15 }

abbrev leap_day-IsDate : IsDate leap_day
leap_day-IsDate = record {
  year_in = (omega arith, omega arith);
  month_in = (omega arith, omega arith);
  day_in = (omega arith, omega arith);
  hour_in = omega arith;
  minute_in = omega arith;
  second_in = omega arith;
}

env_getts-bcd_bytes_example : env_getts true (bcd_bytes leap_day) 60 ≡ some 1709213415
env_getts-bcd_bytes_example =
    env_getts-bcd_bytes true leap_day 60 leap_day-IsDate (inr (omega arith))

-- 15 June 2018 in plain numbers
abbrev june : Date
june = record { y = 2018; m = 6; d = 15; h = 8; i = 0; s = 0 }

abbrev june-IsDate : IsDate june
june-IsDate = record {
  year_in = (omega arith, omega arith);
  month_in = (omega arith, omega arith);
  day_in = (omega arith, omega arith);
  hour_in = omega arith;
  minute_in = omega arith;
  second_in = omega arith;
}

env_getts-binary_bytes_example : env_getts false (binary_bytes june) 0 ≡ some 1529049600
env_getts-binary_bytes_example = env_getts-binary_bytes june 0 june-IsDate (inr (omega arith))

env_getts-binary_bytes_signed_example :
    env_getts true (binary_bytes june) 0
    ≡ env_getts true (binary_bytes (record june { y = 2047 })) 0
env_getts-binary_bytes_signed_example =
    env_getts-binary_bytes_signed june 2047 0 june-IsDate
      (omega arith, λ e. absurd (omega (arith, e)))
      (omega arith, omega arith, λ e. absurd (omega (arith, e)))

-- A day of 2085 in plain numbers is taken for one of 2508.
env_getts_lookalike :
    env_getts false (binary_bytes (record june { y = 2085 })) 0
    ≡ some (unix_time 0 (record june { y = 2508 }))
unfolding env_getts read_date is_bcd timestamp add_time? add_time year_loop month_loop is_leap
    month_days
env_getts_lookalike = refl

abbrev no_env : Env
no_env = record {
  nrphymax = 0;
  nrmqmax = 0;
  nrlogmax = 0;
  clocksource = 0;
  debug = 0;
  display = 0;
  quantum = 0;
  syslog = false;
  networking = false;
  sound = false;
  hpet = 0;
  apic = 0;
  ioapic = 0;
  tmp = 0;
}

abbrev config : List ℕ
config = codes "// boot\nnrphymax=1000\nsyslog=off\nquantum=5\nclock=rtc\ndisplay=sc\n"

env_init-IsBounded_example : (e : Env) × (env_init ibmpc 7 config no_env ≡ some e) × IsBounded e
env_init-IsBounded_example = env_init-IsBounded ibmpc 7 config no_env (omega arith)

env_dec_digits_example : env_dec (codes "1000\n") 8 2 128 ≡ (codes "\n", 128)
env_dec_digits_example =
    env_dec_digits 1 (0 ∷ 0 ∷ 0 ∷ []) (codes "\n") 8 2 128
      (omega arith, (omega arith, (omega arith, (omega arith, tt)))) refl
      (λ e. absurd (ground arith)) (omega arith)

-- The clock source and the time slice that the text gives.
env_init-config :
    (e : Env) × (env_init ibmpc 7 config no_env ≡ some e)
    × (e.clocksource ≡ 3)
    × (e.quantum ≡ 10)
    × (e.nrphymax ≡ 128)
    × (e.syslog ≡ false)
unfolding env_init platform_env init_loop at_end skip_comments skip_line parse_key orelse
    parse_limit parse_switch parse_mode platform_parse kmemcmp env_dec env_hex env_bool env_display
    env_debug env_cs hex_loop dec_loop skip_blanks display_named clock_named block_comment
env_init-config = (_, refl, refl, refl, refl, refl)

-- What a block comment holds is parsed all the same.
env_init-comment :
    (e : Env) × (env_init ibmpc 7 (codes "/* quantum=500 */") no_env ≡ some e) × (e.quantum ≡ 500)
unfolding env_init platform_env init_loop at_end skip_comments skip_line parse_key orelse
    parse_limit parse_switch parse_mode platform_parse kmemcmp env_dec env_hex env_bool env_display
    env_debug env_cs hex_loop dec_loop skip_blanks display_named clock_named block_comment
env_init-comment = (_, refl, refl)
