-- ===== src/Numbers/Decimal.antt =====
-- The number that a text of decimal digits stands for.
use osz.Base.{
  ℕ, zero, suc, ◌+◌, ◌-◌, ◌*◌, ◌^◌, ◌<◌, ◌≤◌, ◌≡◌, ◌≢◌, ap, ◌∙◌, false, List, [], ◌∷◌, ◌++◌, length,
  map, add64, sub64, u64, arith,
}
use native.Mathlib.Nat.{pow-suc}
use osz.Base.Text.{first_byte}
use osz.Numbers.{is_dec, is_0x, dec_loop, stdlib_dec, atol}

-- Digits from 0 to 9.
abbrev pub AllDigits : List ℕ → Type 0
AllDigits [] = Unit {0}
AllDigits (d ∷ ds) = (d < 10) × AllDigits ds

-- The number with these digits, the highest first.
abbrev pub number : List ℕ → ℕ
number [] = 0
number (d ∷ ds) = d * 10 ^ length ds + number ds

-- The byte of a digit.
abbrev pub ascii : ℕ → ℕ
ascii d = 48 + d

regroup : (v d q n : ℕ) → v * (10 * q) + (d * q + n) ≡ (v * 10 + d) * q + n
regroup v d q n = grind arith

pow_suc : (k : ℕ) → 10 ^ suc k ≡ 10 * 10 ^ k
pow_suc k = omega (arith, pow-suc 10 k)

pow_pos : (k : ℕ) → 0 < 10 ^ k
pow_pos zero = omega arith
pow_pos (suc k) = omega (arith, pow_suc k, pow_pos k)

le-mul : (x q : ℕ) → 0 < q → x ≤ x * q
le-mul x zero h = absurd (omega arith)
le-mul x (suc q) h = grind arith

-- One digit more.
add_digit :
    (d v : ℕ) → d < 10 → v * 10 + d < 2 ^ 64 → add64 (u64 (v * 10)) (sub64 (48 + d) 48) ≡ v * 10 + d
add_digit d v h b = omega arith

-- The first digit of a number of `k` more.
first_digit :
    (d v k n : ℕ)
    → v * 10 ^ suc k + (d * 10 ^ k + n) < 2 ^ 64
    → (v * 10 ^ suc k + (d * 10 ^ k + n) ≡ (v * 10 + d) * 10 ^ k + n) × (v * 10 + d < 2 ^ 64)
first_digit d v k n b =
    let e : v * 10 ^ suc k + (d * 10 ^ k + n) ≡ (v * 10 + d) * 10 ^ k + n =
      ap (λ q. v * q + (d * 10 ^ k + n)) (pow_suc k) ∙ regroup v d (10 ^ k) n in
    (e, omega (arith, le-mul (v * 10 + d) (10 ^ k) (pow_pos k)))

pub dec_loop_digits :
    (ds : List ℕ) (d v : ℕ) (rest : List ℕ)
    → AllDigits (d ∷ ds)
    → is_dec (first_byte rest) ≡ false
    → v * 10 ^ suc (length ds) + number (d ∷ ds) < 2 ^ 64
    → dec_loop (map ascii (d ∷ ds) ++ rest) v ≡ (rest, v * 10 ^ suc (length ds) + number (d ∷ ds))
unfolding dec_loop
dec_loop_digits [] d v rest (h, t) r b =
    let (q, s) = first_digit d v 0 0 b in ground (arith, add_digit d v h s)
dec_loop_digits (e ∷ ds) d v rest (h, (h', t)) r b =
    let (q, s) = first_digit d v (suc (length ds)) (number (e ∷ ds)) b in
    let a = add_digit d v h s in
    let ih = dec_loop_digits ds e (v * 10 + d) rest (h', t) r (omega arith) in
    ground (arith, a, ap (dec_loop (map ascii (e ∷ ds) ++ rest)) a, ih)

-- Digits are not taken for a hexadecimal number.
pub digits_not_0x :
    (ds : List ℕ) (d : ℕ) (rest : List ℕ)
    → AllDigits (d ∷ ds)
    → first_byte rest ≢ 120
    → is_0x (map ascii (d ∷ ds) ++ rest) ≡ false
digits_not_0x [] d rest (h, t) n = ground arith
digits_not_0x (e ∷ ds) d rest (h, (h', t)) n = ground arith

stdlib_dec_digits :
    (ds : List ℕ) (d : ℕ) (rest : List ℕ)
    → AllDigits (d ∷ ds)
    → is_dec (first_byte rest) ≡ false
    → first_byte rest ≢ 120
    → number (d ∷ ds) < 2 ^ 64
    → stdlib_dec (map ascii (d ∷ ds) ++ rest) 0 (2 ^ 64 - 1) ≡ (rest, number (d ∷ ds))
unfolding stdlib_dec
stdlib_dec_digits ds d rest a r n b =
    ground (arith, digits_not_0x ds d rest a n, dec_loop_digits ds d 0 rest a r (omega arith))

-- `atol` of a text that starts with decimal digits, which no further digit and no `x` follows, is
-- the number with these digits, and with a minus sign in front the negative number, as a 64 bit
-- word, when the number is below 2 ^ 64.
pub atol_digits :
    (d : ℕ) (ds rest : List ℕ)
    → AllDigits (d ∷ ds)
    → is_dec (first_byte rest) ≡ false
    → first_byte rest ≢ 120
    → number (d ∷ ds) < 2 ^ 64
    → (atol (map ascii (d ∷ ds) ++ rest) ≡ number (d ∷ ds))
      × (atol (45 ∷ (map ascii (d ∷ ds) ++ rest)) ≡ sub64 0 (number (d ∷ ds)))
unfolding atol
atol_digits d ds rest a r n b =
    let e = stdlib_dec_digits ds d rest a r n b in
    let (h, t) = a in (ground (arith, e), ground (arith, e))
