-- ===== src/Env/Encoded.antt =====
-- The two formats of a date that `env_getts` of src/core/env.c tells apart: two decimal digits in a
-- byte, and plain numbers with the lower byte of the year first.
use osz.Base.{
  ℕ, ◌+◌, ◌-◌, ◌*◌, ◌/◌, ◌%◌, ◌<◌, ◌≤◌, ◌≡◌, refl, ap, ◌∙◌, Bool, true, false, some, u64, ◌⊎◌, inl,
  inr, Bool-cases, arith,
}
use osz.Env.Date.{Bytes, Date, is_bcd, read_date, timestamp, env_getts, bcd, high, above, below}
use osz.Env.Calendar.{day_number, epoch, timestamp_lem}

-- The seconds from the epoch to a date in a time zone.
abbrev pub unix_time : (timezone : ℕ) → Date → ℕ
unix_time timezone t =
    u64 ((day_number t.y t.m t.d - epoch) * 86400 + t.h * 3600 + (timezone + t.i) * 60 + t.s)

-- A date of the years that two decimal formats hold.
pub record IsDate (t : Date) : Type 0 where
  pub year_in : (2016 ≤ t.y) × (t.y < 3100)
  pub month_in : (1 ≤ t.m) × (t.m ≤ 12)
  pub day_in : (1 ≤ t.d) × (t.d ≤ 31)
  pub hour_in : t.h < 24
  pub minute_in : t.i < 60
  pub second_in : t.s ≤ 60

-- A number below 100 as two decimal digits
abbrev pub two_digits : ℕ → ℕ
two_digits n = n / 10 * 16 + n % 10

abbrev pub bcd_bytes : Date → Bytes
bcd_bytes t = record {
  p0 = two_digits (t.y / 100);
  p1 = two_digits (t.y % 100);
  p2 = two_digits t.m;
  p3 = two_digits t.d;
  p4 = two_digits t.h;
  p5 = two_digits t.i;
  p6 = two_digits t.s;
}

abbrev pub binary_bytes : Date → Bytes
binary_bytes t = record {
  p0 = t.y % 256;
  p1 = t.y / 256;
  p2 = t.m;
  p3 = t.d;
  p4 = t.h;
  p5 = t.i;
  p6 = t.s;
}

bcd-two_digits : (signed : Bool) (n : ℕ) → n < 80 → bcd signed (two_digits n) ≡ n
bcd-two_digits true n h = ground arith
bcd-two_digits false n h = ground arith

below-two_digits :
    (signed : Bool) (n k : ℕ) → n ≤ k → below signed (two_digits n) (two_digits k) ≡ true
below-two_digits true n k h = ground arith
below-two_digits false n k h = ground arith

above-two_digits :
    (signed : Bool) (n k : ℕ) → k ≤ n → n < 80 → above signed (two_digits k) (two_digits n) ≡ true
above-two_digits true n k h b = ground arith
above-two_digits false n k h b = ground arith

is_bcd-bcd_bytes : (signed : Bool) (t : Date) → IsDate t → is_bcd signed (bcd_bytes t) ≡ true
unfolding is_bcd
is_bcd-bcd_bytes signed t v =
    rw
      (
        above-two_digits signed (t.y / 100) 20 (omega (arith, v.year_in))
            (omega (arith, v.year_in)),
        below-two_digits signed (t.y / 100) 30 (omega (arith, v.year_in)),
        below-two_digits signed (t.y % 100) 99 (omega arith),
        above-two_digits signed t.m 1 (omega (arith, v.month_in)) (omega (arith, v.month_in)),
        below-two_digits signed t.m 12 (omega (arith, v.month_in)),
        above-two_digits signed t.d 1 (omega (arith, v.day_in)) (omega (arith, v.day_in)),
        below-two_digits signed t.d 31 (omega (arith, v.day_in)),
        below-two_digits signed t.h 23 (omega (arith, v.hour_in)),
        below-two_digits signed t.i 59 (omega (arith, v.minute_in)),
        below-two_digits signed t.s 60 (omega (arith, v.second_in)),
      )
      refl

year-two_digits :
    (signed : Bool) (y : ℕ)
    → y < 3100
    → (signed ≡ false) ⊎ (y % 100 < 80)
    → u64 (
        high signed (two_digits (y / 100)) * 1000
        + two_digits (y / 100) % 16 * 100
        + high signed (two_digits (y % 100)) * 10
        + two_digits (y % 100) % 16)
      ≡ y
year-two_digits true y h (inl b) = ground arith
year-two_digits true y h (inr b) = ground arith
year-two_digits false y h c = ground arith

pub Date-eq :
    {t u : Date} → t.y ≡ u.y → t.m ≡ u.m → t.d ≡ u.d → t.h ≡ u.h → t.i ≡ u.i → t.s ≡ u.s → t ≡ u
Date-eq a b c d e f = cc

read_date-bcd_bytes :
    (signed : Bool) (t : Date)
    → IsDate t
    → (signed ≡ false) ⊎ (t.y % 100 < 80)
    → read_date signed (bcd_bytes t) ≡ t
unfolding read_date
read_date-bcd_bytes signed t v c =
    let year = year-two_digits signed t.y (omega (arith, v.year_in)) c in
    rw (is_bcd-bcd_bytes signed t v) (
      Date-eq year (bcd-two_digits signed t.m (omega (arith, v.month_in)))
        (bcd-two_digits signed t.d (omega (arith, v.day_in)))
        (bcd-two_digits signed t.h (omega (arith, v.hour_in)))
        (bcd-two_digits signed t.i (omega (arith, v.minute_in)))
        (bcd-two_digits signed t.s (omega (arith, v.second_in))))

-- A date from 2016 to 3099 in decimal digits, with the last two digits of the year below 80 where
-- `char` is signed, gives the seconds from the epoch to it in the time zone.
pub env_getts-bcd_bytes :
    (signed : Bool) (t : Date) (timezone : ℕ)
    → IsDate t
    → (signed ≡ false) ⊎ (t.y % 100 < 80)
    → env_getts signed (bcd_bytes t) timezone ≡ some (unix_time timezone t)
unfolding env_getts
env_getts-bcd_bytes signed t timezone v c =
    ap (timestamp timezone) (read_date-bcd_bytes signed t v c)
    ∙ timestamp_lem timezone t v.year_in.0 (omega (arith, v.year_in)) v.month_in.0 v.month_in.1
        v.day_in.0 v.day_in.1

year_edge :
    (signed : Bool) (c : ℕ)
    → (c < 32) ⊎ (48 < c)
    → c < 256
    → (above signed 32 c ≡ false) ⊎ (below signed c 48 ≡ false)
year_edge true c h b = ground arith
year_edge false c h b = ground arith

pub is_bcd-binary_bytes :
    (signed : Bool) (t : Date)
    → (t.y % 256 < 32) ⊎ (48 < t.y % 256)
    → is_bcd signed (binary_bytes t) ≡ false
unfolding is_bcd
is_bcd-binary_bytes signed t c = elim (year_edge signed (t.y % 256) c (omega arith)) [
  | inl e ↦ rw e refl
  | inr e ↦ elim (Bool-cases (above signed 32 (t.y % 256))) [
    | inl a ↦ rw (a, e) refl
    | inr a ↦ rw a refl
  ]
]

-- A date from 2016 to 3099 in plain numbers, where `char` is not signed and the lower byte of the
-- year is not from 32 to 48, gives the seconds from the epoch to it in the time zone.
pub env_getts-binary_bytes :
    (t : Date) (timezone : ℕ)
    → IsDate t
    → (t.y % 256 < 32) ⊎ (48 < t.y % 256)
    → env_getts false (binary_bytes t) timezone ≡ some (unix_time timezone t)
unfolding env_getts read_date
env_getts-binary_bytes t timezone v c =
    let year : u64 (t.y / 256 * 256 + t.y % 256) ≡ t.y = omega (arith, v.year_in) in
    rw (is_bcd-binary_bytes false t c) (
      ap (timestamp timezone) (Date-eq year refl refl refl refl refl)
      ∙ timestamp_lem timezone t v.year_in.0 (omega (arith, v.year_in)) v.month_in.0 v.month_in.1
          v.day_in.0 v.day_in.1)
