-- ===== src/Env/Calendar.antt =====
-- The timestamp of the boot loader's date, `env_getts` of src/core/env.c, and the days of the
-- Gregorian calendar.
use osz.Base.{
  ℕ, zero, suc, ◌+◌, ◌-◌, ◌*◌, ◌/◌, ◌^◌, ◌<◌, ◌≤◌, ◌≡◌, refl, ap, ◌∙◌, some, [], ◌∷◌, ltb, leb,
  if◌then◌else◌, add64, sub64, u64, inl, inr, Bool-cases, arith,
}
use osz.Env.Date.{Date, is_leap, month_days, year_loop, month_loop, add_time, add_time?, timestamp}

-- The number of leap years up to the year `y`.
abbrev pub leap_years : ℕ → ℕ
leap_years y = y / 4 + y / 400 - y / 100

-- The day of a date, the first day of the year 1 being day 1: a closed formula.
abbrev pub day_number : (y m d : ℕ) → ℕ
day_number y m d =
    365 * (y - 1)
    + leap_years (y - 1)
    + (367 * m - 362) / 12
    + d
    - (if leb m 2 then 0 else 2 - (leap_years y - leap_years (y - 1)))

-- The first of January of 1970
abbrev pub epoch : ℕ
epoch = day_number 1970 1 1

leap_years-suc : (k : ℕ) → leap_years (suc k) ≡ (if is_leap (suc k) then 1 else 0) + leap_years k
unfolding is_leap
leap_years-suc k = ground arith

abbrev year_start : ℕ → ℕ
year_start k = 365 * k + leap_years k

year_start-suc :
    (k : ℕ) → year_start (suc k) ≡ (if is_leap (suc k) then 366 else 365) + year_start k
year_start-suc k = ground (arith, leap_years-suc k)

-- The loop over the years counts the days between two first days of January.
year_loop_lem :
    (n k r : ℕ)
    → r + 366 * n < 2 ^ 64
    → year_loop n (suc k) r + year_start k ≡ r + year_start (k + n)
unfolding year_loop
year_loop_lem zero k r h = ap (λ k'. r + year_start k') {x = k} {y = k + 0} (omega arith)
year_loop_lem (suc n) k r h =
    let e = year_start-suc k in
    let q : year_start (suc k + n) ≡ year_start (k + suc n) =
      ap (λ k'. year_start k') {x = suc k + n} {y = k + suc n} (omega arith) in
    let step : (x : ℕ)
        → x ≤ 366
        → year_start (suc k) ≡ x + year_start k
        → year_loop n (suc (suc k)) (add64 r x) + year_start k ≡ r + year_start (k + suc n) =
      λ x l d.
        ap (λ r'. year_loop n (suc (suc k)) r' + year_start k) {x = add64 r x} {y = r + x}
          (omega arith)
        ∙ omega (arith, d, q, year_loop_lem n (suc k) (r + x) (omega arith)) in
    elim (Bool-cases (is_leap (suc k))) [
      | inl b ↦
          rw b (step 366 (omega arith) (e ∙ ap (λ c. (if c then 366 else 365) + year_start k) b))
      | inr b ↦
          rw b (step 365 (omega arith) (e ∙ ap (λ c. (if c then 366 else 365) + year_start k) b))
    ]

-- The loop over the months of a year with `f` days in February counts the days between two first
-- days of a month.
month_loop_lem :
    (f n r : ℕ)
    → 28 ≤ f
    → f ≤ 29
    → n < 12
    → r + 366 < 2 ^ 64
    → (r' : ℕ) × (month_loop n (31 ∷ f ∷ 31 ∷ 30 ∷ 31 ∷ 30 ∷ 31 ∷ 31 ∷ 30 ∷ 31 ∷ 30 ∷ 31 ∷ []) r
        ≡ some r')
      × (r' + (if ltb n 2 then 0 else 30 - f) ≡ r + (367 * n + 5) / 12)
unfolding month_loop
month_loop_lem f zero r l u h b = (_, refl, omega arith)
month_loop_lem f (suc zero) r l u h b = (_, refl, omega arith)
month_loop_lem f (suc (suc zero)) r l u h b = (_, refl, omega arith)
month_loop_lem f (suc (suc (suc zero))) r l u h b = (_, refl, omega arith)
month_loop_lem f (suc (suc (suc (suc zero)))) r l u h b = (_, refl, omega arith)
month_loop_lem f (suc (suc (suc (suc (suc zero))))) r l u h b = (_, refl, omega arith)
month_loop_lem f (suc (suc (suc (suc (suc (suc zero)))))) r l u h b = (_, refl, omega arith)
month_loop_lem f (suc (suc (suc (suc (suc (suc (suc zero))))))) r l u h b = (_, refl, omega arith)
month_loop_lem f (suc (suc (suc (suc (suc (suc (suc (suc zero)))))))) r l u h b =
    (_, refl, omega arith)
month_loop_lem f (suc (suc (suc (suc (suc (suc (suc (suc (suc zero))))))))) r l u h b =
    (_, refl, omega arith)
month_loop_lem f (suc (suc (suc (suc (suc (suc (suc (suc (suc (suc zero)))))))))) r l u h b =
    (_, refl, omega arith)
month_loop_lem f (suc (suc (suc (suc (suc (suc (suc (suc (suc (suc (suc zero))))))))))) r l u h b =
    (_, refl, omega arith)
month_loop_lem f (suc (suc (suc (suc (suc (suc (suc (suc (suc (suc (suc (suc n)))))))))))) r l u h
      b =
    absurd (omega arith)

february : ℕ → ℕ
february y = if is_leap y then 29 else 28

february_lem :
    (y : ℕ)
    → 1 ≤ y
    → (28 ≤ february y)
      × (february y ≤ 29)
      × (30 - february y ≡ 2 - (leap_years y - leap_years (y - 1)))
unfolding february
february_lem zero h = absurd (omega arith)
february_lem (suc k) h = elim (Bool-cases (is_leap (suc k))) [
  | inl b ↦ rw b (omega arith, omega arith, ground (arith, leap_years-suc k, b))
  | inr b ↦ rw b (omega arith, omega arith, ground (arith, leap_years-suc k, b))
]

days_sum :
    (y m d r s f L P : ℕ)
    → 2016 ≤ y
    → y < 2 ^ 16
    → 1 ≤ m
    → m ≤ 12
    → P ≤ y
    → s + 735963 ≡ 16801 + (365 * (y - 1) + P)
    → 30 - f ≡ 2 - (L - P)
    → r + (if ltb (m - 1) 2 then 0 else 30 - f) ≡ s + (367 * (m - 1) + 5) / 12
    → (r + d + 719163
        ≡ 365 * (y - 1) + P + (367 * m - 362) / 12 + d - (if leb m 2 then 0 else 2 - (L - P)) + 1)
      × (r < 2 ^ 30)
days_sum y m d r s f L P a b c e g h i k = (ground arith, ground arith)

-- The loops reach the day before the first day of the month.
days_lem :
    (y m d : ℕ)
    → 2016 ≤ y
    → y < 2 ^ 16
    → 1 ≤ m
    → m ≤ 12
    → (r : ℕ) × (month_loop (m - 1) (month_days y) (year_loop (y - 2016) 2016 16801) ≡ some r)
      × (r + d + epoch ≡ day_number y m d + 1)
      × (r < 2 ^ 30)
unfolding month_days february
days_lem y m d a b c e =
    let (l, u, q) = february_lem y (omega arith) in
    let years : year_loop (y - 2016) 2016 16801 + year_start 2015 ≡ 16801 + year_start (y - 1) =
      year_loop_lem (y - 2016) 2015 16801 (omega arith)
      ∙ ap (λ k. 16801 + year_start k) {x = 2015 + (y - 2016)} {y = y - 1} (omega arith) in
    let (r, found, days) =
      month_loop_lem (february y) (m - 1) (year_loop (y - 2016) 2016 16801) l u (omega arith)
        (omega (arith, years)) in
    let (sum, bound) =
      days_sum y m d r (year_loop (y - 2016) 2016 16801) (february y) (leap_years y)
        (leap_years (y - 1)) a b c e (omega arith) years q days in
    (r, found, sum, bound)

seconds_lem :
    (timezone : ℕ) (t : Date) (r n : ℕ)
    → r < 2 ^ 30
    → 1 ≤ t.d
    → t.d ≤ 31
    → r + t.d + epoch ≡ n + 1
    → add_time timezone t r ≡ u64 ((n - epoch) * 86400 + t.h * 3600 + (timezone + t.i) * 60 + t.s)
unfolding add_time
seconds_lem timezone t r n a b c h =
    let e : add64 r (sub64 t.d 1) ≡ n - epoch = omega arith in
    ap (λ x. add64 (u64 (x * 86400)) (u64 (t.h * 3600 + add64 timezone t.i * 60 + t.s))) e
    ∙ omega arith

-- The timestamp of a date from 2016 to 65535, in a time zone, is the seconds from the epoch.
pub timestamp_lem :
    (timezone : ℕ) (t : Date)
    → 2016 ≤ t.y
    → t.y < 2 ^ 16
    → 1 ≤ t.m
    → t.m ≤ 12
    → 1 ≤ t.d
    → t.d ≤ 31
    → timestamp timezone t
      ≡ some (
          u64 ((day_number t.y t.m t.d - epoch) * 86400 + t.h * 3600 + (timezone + t.i) * 60 + t.s))
unfolding timestamp add_time?
timestamp_lem timezone t a b c d e f =
    let (r, found, sum, bound) = days_lem t.y t.m t.d a b c d in
    ap (add_time? timezone t) found
    ∙ (ap some (seconds_lem timezone t r (day_number t.y t.m t.d) bound e f sum))
