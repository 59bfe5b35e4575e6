-- ===== src/Env/Digits.antt =====
-- Decimal values of the boot environment, `env_dec` of src/core/env.c.
use osz.Base.{ℕ, ◌^◌, ◌<◌, ◌≡◌, ◌≢◌, ap, ◌∙◌, false, List, ◌∷◌, ◌++◌, map, arith}
use osz.Base.Text.{first_byte}
use osz.Numbers.{is_dec, clamp}
use osz.Numbers.Decimal.{AllDigits, number, ascii, dec_loop_digits, digits_not_0x}
use osz.Env.Parse.{env_dec}

-- `env_dec` of a text that starts with decimal digits, which no further digit and no `x` follows,
-- gives the number with these digits, when it is below 2 ^ 64, in the bounds of the caller, whatever
-- the variable held before, and the text behind the digits.
pub env_dec_digits :
    (d : ℕ) (ds rest : List ℕ) (v min max : ℕ)
    → AllDigits (d ∷ ds)
    → is_dec (first_byte rest) ≡ false
    → first_byte rest ≢ 120
    → number (d ∷ ds) < 2 ^ 64
    → env_dec (map ascii (d ∷ ds) ++ rest) v min max ≡ (rest, clamp min max (number (d ∷ ds)))
unfolding env_dec
env_dec_digits d ds rest v min max a r n b =
    let e = dec_loop_digits ds d 0 rest a r (omega arith) in
    rw (digits_not_0x ds d rest a n) (
      ap (λ (q : List ℕ × ℕ). (q.0, clamp min max q.1)) e
      ∙ ap (λ x. (rest, clamp min max x)) (omega arith))
