-- ===== src/Env/Date.antt =====
-- The date of the boot loader, `env_getts` of src/core/env.c. `char` is signed on x86_64 and not on
-- aarch64, which is the argument `signed`; a signed value, and the time zone, stands as its 64 bit
-- word. A date is its first seven bytes.
use osz.Base.{
  ℕ, zero, suc, ◌+◌, ◌-◌, ◌*◌, ◌/◌, ◌%◌, ◌^◌, Bool, false, not, ◌&&◌, ◌||◌, Option, none, some,
  List, [], ◌∷◌, leb, ◌==◌, if◌then◌else◌, add64, sub64, u64,
}

-- `char p[7]`
pub record Bytes : Type 0 where
  pub p0 : ℕ
  pub p1 : ℕ
  pub p2 : ℕ
  pub p3 : ℕ
  pub p4 : ℕ
  pub p5 : ℕ
  pub p6 : ℕ

-- The year, month, day, hour, minute and second
pub record Date : Type 0 where
  pub y : ℕ
  pub m : ℕ
  pub d : ℕ
  pub h : ℕ
  pub i : ℕ
  pub s : ℕ

-- Whether a `char` is below 0, its value, and its upper four bits (`>>4`).
abbrev pub is_minus : Bool → ℕ → Bool
is_minus signed c = signed && leb 128 c

abbrev pub char : Bool → ℕ → ℕ
char signed c = if is_minus signed c then c + (2 ^ 64 - 256) else c

abbrev pub high : Bool → ℕ → ℕ
high signed c = if is_minus signed c then c / 16 + (2 ^ 64 - 16) else c / 16

-- `lo<=c` and `c<=hi` for bounds of at least 0; `0x99` is above every signed `char`.
abbrev pub above : Bool → ℕ → ℕ → Bool
above signed lo c = not (is_minus signed c) && leb lo c

abbrev pub below : Bool → ℕ → ℕ → Bool
below signed c hi = is_minus signed c || leb c hi

unfoldable pub is_bcd : Bool → Bytes → Bool
is_bcd signed p =
    above signed 32 p.p0
    && below signed p.p0 48
    && below signed p.p1 153
    && above signed 1 p.p2
    && below signed p.p2 18
    && above signed 1 p.p3
    && below signed p.p3 49
    && below signed p.p4 35
    && below signed p.p5 89
    && below signed p.p6 96

-- `((c>>4)*10)+(c&0x0F)`
abbrev pub bcd : Bool → ℕ → ℕ
bcd signed c = u64 (high signed c * 10 + c % 16)

unfoldable pub read_date : Bool → Bytes → Date
read_date signed p =
    if is_bcd signed p
    then record {
      y = u64 (high signed p.p0 * 1000 + p.p0 % 16 * 100 + high signed p.p1 * 10 + p.p1 % 16);
      m = bcd signed p.p2;
      d = bcd signed p.p3;
      h = bcd signed p.p4;
      i = bcd signed p.p5;
      s = bcd signed p.p6;
    }
    else record {
      y = u64 (char signed p.p1 * 256 + char signed p.p0);
      m = char signed p.p2;
      d = char signed p.p3;
      h = char signed p.p4;
      i = char signed p.p5;
      s = char signed p.p6;
    }

-- The test of the source for years of 366 days
unfoldable pub is_leap : ℕ → Bool
is_leap j = if not (j % 4 == 0) then false else not ((j % 100 == 0) && not (j % 400 == 0))

-- `md`
unfoldable pub month_days : ℕ → List ℕ
month_days y =
    31 ∷ (if is_leap y then 29 else 28) ∷ 31 ∷ 30 ∷ 31 ∷ 30 ∷ 31 ∷ 31 ∷ 30 ∷ 31 ∷ 30 ∷ 31 ∷ []

-- The loop over the years, for `n` turns from the year `j` on.
unfoldable pub year_loop : (n j r : ℕ) → ℕ
year_loop zero j r = r
year_loop (suc n) j r = year_loop n (suc j) (add64 r (if is_leap j then 366 else 365))

-- The loop over the months, for `n` turns; `none` where it reads behind the array.
unfoldable pub month_loop : (n : ℕ) → List ℕ → ℕ → Option ℕ
month_loop zero md r = some r
month_loop (suc n) [] r = none
month_loop (suc n) (x ∷ md) r = month_loop n md (add64 r x)

-- The days of this month, and the time of the day.
unfoldable pub add_time : (timezone : ℕ) → Date → ℕ → ℕ
add_time timezone t r =
    add64 (u64 (add64 r (sub64 t.d 1) * 86400)) (u64 (t.h * 3600 + add64 timezone t.i * 60 + t.s))

unfoldable pub add_time? : (timezone : ℕ) → Date → Option ℕ → Option ℕ
add_time? timezone t none = none
add_time? timezone t (some r) = some (add_time timezone t r)

unfoldable pub timestamp : (timezone : ℕ) → Date → Option ℕ
timestamp timezone t =
    let years = year_loop (t.y - 2016) 2016 16801 in
    add_time? timezone t (month_loop (t.m - 1) (month_days t.y) years)

unfoldable pub env_getts : (signed : Bool) → Bytes → (timezone : ℕ) → Option ℕ
env_getts signed p timezone = timestamp timezone (read_date signed p)
