-- ===== src/Env/Signed.antt =====
-- Dates in plain numbers where `char` is signed, `env_getts` of src/core/env.c.
use osz.Base.{
  ℕ, ◌-◌, ◌%◌, ◌<◌, ◌≤◌, ◌≡◌, ◌≢◌, refl, ap, ◌∙◌, sym, Bool, true, false, Option, none, some, [],
  ◌∷◌, if◌then◌else◌, inr, arith,
}
use osz.Env.Date.{
  Date, read_date, timestamp, env_getts, is_leap, month_days, month_loop, year_loop, add_time,
  add_time?, char,
}
use osz.Env.Encoded.{IsDate, binary_bytes, Date-eq, is_bcd-binary_bytes}

char_small : (c : ℕ) → c < 128 → char true c ≡ c
char_small c h = ground arith

-- What is left of the year
read_date-binary_bytes_signed :
    (t : Date)
    → IsDate t
    → t.y < 2048
    → read_date true (binary_bytes t) ≡ record t { y = t.y - 256 }
unfolding read_date
read_date-binary_bytes_signed t v b =
    rw (is_bcd-binary_bytes true t (inr (omega (arith, v.year_in)))) (
      Date-eq (ground (arith, v.year_in)) (char_small t.m (omega (arith, v.month_in)))
        (char_small t.d (omega (arith, v.day_in))) (char_small t.h (omega (arith, v.hour_in)))
        (char_small t.i (omega (arith, v.minute_in))) (char_small t.s (omega (arith, v.second_in))))

plain_year : (y : ℕ) → y % 4 ≢ 0 → is_leap y ≡ false
unfolding is_leap
plain_year y h = ground arith

plain_months : (y : ℕ) → y % 4 ≢ 0 → month_days y ≡ month_days 2017
unfolding month_days
plain_months y h =
    ap
      (λ (b : Bool).
        31 ∷ (if b then 29 else 28) ∷ 31 ∷ 30 ∷ 31 ∷ 30 ∷ 31 ∷ 31 ∷ 30 ∷ 31 ∷ 30 ∷ 31 ∷ [])
      (plain_year y h ∙ sym (plain_year 2017 (λ e. absurd (ground arith))))

same_time :
    (timezone y : ℕ) (t : Date) (o : Option ℕ)
    → add_time? timezone (record t { y = y }) o ≡ add_time? timezone t o
unfolding add_time? add_time
same_time timezone y t none = refl
same_time timezone y t (some r) = refl

timestamp_early :
    (timezone y : ℕ) (t : Date)
    → y ≤ 2016
    → y % 4 ≢ 0
    → timestamp timezone (record t { y = y })
      ≡ add_time? timezone t (month_loop (t.m - 1) (month_days 2017) 16801)
unfolding timestamp year_loop add_time? add_time
timestamp_early timezone y t b c =
    ap
      (λ n.
        add_time? timezone (record t { y = y })
          (month_loop (t.m - 1) (month_days y) (year_loop n 2016 16801)))
      {x = y - 2016} {y = 0} (omega arith)
    ∙ ap (λ md. add_time? timezone (record t { y = y }) (month_loop (t.m - 1) md 16801))
        (plain_months y c)
    ∙ same_time timezone y t (month_loop (t.m - 1) (month_days 2017) 16801)

-- Where `char` is signed, all years from 2016 to 2047 that are no leap years are taken for the same
-- one when the date is in plain numbers.
pub env_getts-binary_bytes_signed :
    (t : Date) (y' timezone : ℕ)
    → IsDate t
    → (t.y < 2048) × (t.y % 4 ≢ 0)
    → (2016 ≤ y') × (y' < 2048) × (y' % 4 ≢ 0)
    → env_getts true (binary_bytes t) timezone
      ≡ env_getts true (binary_bytes (record t { y = y' })) timezone
unfolding env_getts
env_getts-binary_bytes_signed t y' timezone v b c =
    let v' : IsDate (record t { y = y' }) = record {
      year_in = (c.0, omega (arith, c));
      month_in = v.month_in;
      day_in = v.day_in;
      hour_in = v.hour_in;
      minute_in = v.minute_in;
      second_in = v.second_in;
    } in
    ap (timestamp timezone) (read_date-binary_bytes_signed t v b.0)
    ∙ timestamp_early timezone (t.y - 256) t (omega (arith, b))
        (λ e. b.1 (omega (arith, e, v.year_in)))
    ∙ sym (
        timestamp_early timezone (y' - 256) t (omega (arith, c)) (λ e. c.2 (omega (arith, e, c.0))))
    ∙ sym (ap (timestamp timezone) (read_date-binary_bytes_signed (record t { y = y' }) v' c.1))
