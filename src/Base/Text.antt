-- ===== src/Base/Text.antt =====
-- Texts as lists of bytes, and the comparisons of the core's own string routines.
use Prim.Native.Nat.{ℕ, zero, suc}
use Prim.Native.Char.{code}
use Prim.Native.String.{String}
use mathlib.Core.Bool.{Bool, true, false, ◌&&◌}
use mathlib.Core.Path.{◌≡◌, refl}
use native.Mathlib.Omega.{arith}
use mathlib.Core.List.{List, [], ◌∷◌}
use osz.Base.Tests.{◌==◌, if◌then◌else◌}

abbrev pub codes : String → List ℕ
codes String.[] = []
codes (String.◌∷◌ c s) = code c ∷ codes s

-- The first byte of a zero padded text, and the others.
abbrev pub first_byte : List ℕ → ℕ
first_byte [] = 0
first_byte (x ∷ xs) = x

abbrev pub rest_bytes : List ℕ → List ℕ
rest_bytes [] = []
rest_bytes (x ∷ xs) = xs

-- Whether `kmemcmp(a, b, n)` of libk.S returns 0: it compares up to `n` bytes, and ends at a zero in
-- `b`.
unfoldable pub kmemcmp : ℕ → List ℕ → List ℕ → Bool
kmemcmp zero a b = true
kmemcmp (suc n) a b =
    let rest = kmemcmp n (rest_bytes a) (rest_bytes b) in
    if first_byte b == 0 then first_byte a == 0 else (first_byte a == first_byte b) && rest

-- Whether `strcmp(a, b)` returns 0.
unfoldable pub strcmp : List ℕ → List ℕ → Bool
strcmp [] [] = true
strcmp [] (y ∷ b) = false
strcmp (x ∷ a) [] = false
strcmp (x ∷ a) (y ∷ b) = let rest = strcmp a b in (x == y) && rest

pub strcmp→eq : (a b : List ℕ) → strcmp a b ≡ true → a ≡ b
unfolding strcmp
strcmp→eq [] [] h = refl
strcmp→eq [] (y ∷ b) h = ground arith
strcmp→eq (x ∷ a) [] h = ground arith
strcmp→eq (x ∷ a) (y ∷ b) h = ground (arith, strcmp→eq a b)

pub strcmp_self : (a : List ℕ) → strcmp a a ≡ true
unfolding strcmp
strcmp_self [] = refl
strcmp_self (x ∷ a) = ground (arith, strcmp_self a)
