-- ===== src/Numbers/Tests.antt =====
-- Numbers that texts stand for, and searches.
use osz.Base.{ℕ, ◌≡◌, ◌^◌, ◌-◌, refl, none, some, [], ◌∷◌, if◌then◌else◌, ltb, ◌==◌, arith, sub64}
use osz.Base.Text.{codes}
use osz.Numbers.{
  Order, less, equal, greater, stdlib_dec, stdlib_hex, dec_loop, hex_loop, atol, bsearch,
  bsearch_loop,
}
use osz.Numbers.Decimal.{atol_digits}

-- A plain number, a negative one, a hexadecimal one and an empty text.
atol_plain : atol (codes "1024 x") ≡ 1024
unfolding atol stdlib_dec dec_loop
atol_plain = refl

atol_minus : atol (codes "-3") ≡ 2 ^ 64 - 3
unfolding atol stdlib_dec dec_loop
atol_minus = refl

atol_0x : atol (codes "0x1fG") ≡ 31
unfolding atol stdlib_dec stdlib_hex hex_loop
atol_0x = refl

-- The order of the keys 10, 20, 30, ... that stand at the offsets 0, 8, 16, ... to 20.
abbrev cmp_20 : ℕ → Order
cmp_20 p = if ltb p 8 then greater else if p == 8 then equal else less

-- The key at offset 8 is not found among three elements of 8 bytes.
bsearch_three : bsearch 3 8 cmp_20 ≡ some none
unfolding bsearch bsearch_loop
bsearch_three = refl

atol_digits_example : (atol (codes "1024 x") ≡ 1024) × (atol (codes "-1024 x") ≡ sub64 0 1024)
atol_digits_example =
    atol_digits 1 (0 ∷ 2 ∷ 4 ∷ []) (codes " x")
      (omega arith, (omega arith, (omega arith, (omega arith, tt)))) refl
      (λ e. absurd (ground arith)) (omega arith)
