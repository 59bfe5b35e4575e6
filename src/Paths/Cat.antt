-- ===== src/Paths/Cat.antt =====
-- How long the paths are that `pathcat` makes.
use osz.Base.{
  none, ℕ, ◌+◌, ◌<◌, ◌≡◌, false, ◌↔◌, some, List, [], ◌∷◌, ◌++◌, length, length-append, ◌==◌, arith,
}
use osz.Fcb.{ends_slash}
use osz.Base.Text.{first_byte}
use osz.Paths.{pathcat, in_buffer}

-- A name that does not fit is refused; any other path has less than `pathmax` bytes, which leaves
-- room for the zero behind it.
pathcat_bounds :
    (pathmax : ℕ) (path filename r : List ℕ)
    → 0 < length filename
    → length path < pathmax
    → pathcat pathmax path filename ≡ some (some r)
    → (length path + length filename < pathmax) × (length r < pathmax)
unfolding pathcat in_buffer
pathcat_bounds pathmax [] filename r f l e = ground arith
pathcat_bounds pathmax (c ∷ path) [] r f l e = ground arith
pathcat_bounds pathmax (c ∷ path) (x ∷ name) r f l e = ground arith

-- The buffer is too short by the zero exactly when the two parts have one byte less together than it
-- has, and no slash where they meet.
pathcat_overrun :
    (pathmax : ℕ) (path filename : List ℕ)
    → 0 < length path
    → 0 < length filename
    → (pathcat pathmax path filename ≡ none) ↔ (
        (length path + length filename + 1 ≡ pathmax)
        × (ends_slash path ≡ false)
        × ((first_byte filename == 47) ≡ false))
unfolding pathcat in_buffer
pathcat_overrun pathmax [] filename f l = ground arith
pathcat_overrun pathmax (c ∷ path) [] f l = ground arith
pathcat_overrun pathmax (c ∷ path) (x ∷ name) f l =
    let p = c ∷ path in
    let q = p ++ 47 ∷ [] in
    ground (
      arith,
      length-append p name,
      length-append p (x ∷ name),
      length-append p (47 ∷ []),
      length-append q name,
      length-append q (x ∷ name),
    )
