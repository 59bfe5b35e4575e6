-- ===== src/Numbers.antt =====
-- Numbers and search of the C library, src/lib/libc/stdlib.c: `stdlib_hex`, `stdlib_dec`, `atoi`,
-- `atol`, `atoll`, `bsearch`. A text is a list of bytes, behind which reads give 0; a signed result
-- is its 64 or 32 bit word.
pub mod Decimal
pub mod Search
mod Tests
use osz.Base.{
  ℕ, zero, suc, ◌+◌, ◌-◌, ◌*◌, ◌/◌, ◌%◌, ◌^◌, Bool, true, false, not, ◌&&◌, ◌||◌, Option, none,
  some, List, [], ◌∷◌, drop, ltb, leb, ◌==◌, if◌then◌else◌, add64, sub64, u64,
}
use osz.Base.Text.{first_byte, rest_bytes}

abbrev pub is_dec : ℕ → Bool
is_dec c = leb 48 c && leb c 57

abbrev pub is_hex : ℕ → Bool
is_hex c = is_dec c || (leb 97 c && leb c 102) || (leb 65 c && leb c 70)

-- Whether the text starts with `0x`.
abbrev pub is_0x : List ℕ → Bool
is_0x s = (first_byte s == 48) && (first_byte (rest_bytes s) == 120)

-- The value of a hexadecimal digit; another byte adds nothing.
abbrev pub hex_digit : ℕ → ℕ
hex_digit c =
    if is_dec c
    then c - 48
    else if leb 97 c && leb c 102
    then c - 87
    else if leb 65 c && leb c 70
    then c - 55
    else 0

-- The bounds of the caller; a `max` of 0 is none.
abbrev pub clamp : (min max v : ℕ) → ℕ
clamp min max v =
    let low = if ltb v min then min else v in if not (max == 0) && ltb max low then max else low

-- The loops read a byte before they test one.
unfoldable pub hex_loop : List ℕ → ℕ → List ℕ × ℕ
hex_loop [] v = ([], u64 (v * 16))
hex_loop (c ∷ s) v =
    let v' = add64 (u64 (v * 16)) (hex_digit c) in
    let next = hex_loop s v' in if is_hex (first_byte s) then next else (s, v')

unfoldable pub stdlib_hex : List ℕ → (min max : ℕ) → List ℕ × ℕ
stdlib_hex s min max =
    let (rest, v) = hex_loop (if is_0x s then drop 2 s else s) 0 in (rest, clamp min max v)

unfoldable pub dec_loop : List ℕ → ℕ → List ℕ × ℕ
dec_loop [] v = ([], add64 (u64 (v * 10)) (sub64 0 48))
dec_loop (c ∷ s) v =
    let v' = add64 (u64 (v * 10)) (sub64 c 48) in
    let next = dec_loop s v' in if is_dec (first_byte s) then next else (s, v')

unfoldable pub stdlib_dec : List ℕ → (min max : ℕ) → List ℕ × ℕ
stdlib_dec s min max =
    let (rest, v) = dec_loop s 0 in
    if is_0x s then stdlib_hex (drop 2 s) min max else (rest, clamp min max v)

-- `-` is 45.
unfoldable pub atol : List ℕ → ℕ
atol c =
    if first_byte c == 45
    then sub64 0 (stdlib_dec (rest_bytes c) 0 (2 ^ 64 - 1)).1
    else (stdlib_dec c 0 (2 ^ 64 - 1)).1

unfoldable pub atoll : List ℕ → ℕ
unfolding atol
atoll c = atol c

unfoldable pub atoi : List ℕ → ℕ
atoi c =
    (if first_byte c == 45
      then sub64 0 (stdlib_dec (rest_bytes c) 0 (2 ^ 32 - 1)).1
      else (stdlib_dec c 0 (2 ^ 32 - 1)).1)
    % 2 ^ 32

-- The result of a comparison of the key
pub data Order : Type 0 where
  less equal greater : Order

-- The loop of `bsearch` between the elements `s` and `e`, for at most `n` turns. `cmp` compares the
-- key with what stands at an offset in bytes. The offset of the element `m` is taken as `m*s`.
unfoldable pub bsearch_loop : (n s e : ℕ) → (ℕ → Order) → Option (Option ℕ)
bsearch_loop zero s e cmp = none
bsearch_loop (suc n) s e cmp =
    let m = s + (e - s) / 2 in
    let below = bsearch_loop n s m cmp in
    let above = bsearch_loop n (m + 1) e cmp in
    if not (ltb s e)
    then some none
    else elim (cmp (m * s)) [ less ↦ below | greater ↦ above | equal ↦ some (some (m * s)) ]

-- The offset of the element that is found; the size of the elements is not used.
unfoldable pub bsearch : (nmemb size : ℕ) → (ℕ → Order) → Option (Option ℕ)
bsearch nmemb size cmp = bsearch_loop (suc nmemb) 0 nmemb cmp
