-- ===== src/Vfs/Fstab/Line.antt =====
-- A line of the list of file systems, `mtab_fstab` of src/fs/mtab.c.
use osz.Base.{
  ℕ, ◌≡◌, ◌≢◌, refl, ap, ◌∙◌, true, false, ◌||◌, none, some, List, [], ◌∷◌, ◌++◌, ◌==◌,
  if◌then◌else◌, arith,
}
use osz.Base.Text.{first_byte, rest_bytes}
use osz.Vfs.Fstab.{
  is_space, ends_word, skip_white, skip_space, word, field, field_of, skip_comment, with_dev,
  with_file, with_opts, fstab_fields, fstab_turn,
}

-- A word without zeros and white space.
abbrev pub IsWord : List ℕ → Type 0
IsWord [] = Unit {0}
IsWord (c ∷ w) = (ends_word c ≡ false) × (c ≢ 10) × IsWord w

word_lem :
    (w : List ℕ) (c : ℕ) (s : List ℕ)
    → IsWord w
    → ends_word c ≡ true
    → word (w ++ c ∷ s) ≡ (w, c ∷ s)
unfolding word
word_lem [] c s h e = rw e refl
word_lem (x ∷ w) c s (a, b, h) e = rw (a, word_lem w c s h e) refl

skip_space_word : (w : List ℕ) (c : ℕ) (s : List ℕ) → IsWord (c ∷ w) → skip_space (c ∷ s) ≡ c ∷ s
unfolding skip_space
skip_space_word w c s (a, b, h) = ground arith

-- A field of one blank.
field_lem :
    (w : List ℕ) (c : ℕ) (s : List ℕ)
    → IsWord w
    → (is_space c ≡ false) × (c ≢ 10)
    → field (w ++ 32 ∷ c ∷ s) ≡ (w, c ∷ s, false)
unfolding field field_of skip_space
field_lem w c s h k = ap field_of (word_lem w 32 (c ∷ s) h refl) ∙ ground arith

-- The next field begins.
begins_word : (c : ℕ) (w : List ℕ) → IsWord (c ∷ w) → (is_space c ≡ false) × (c ≢ 10)
begins_word c w (a, b, h) = (ground arith, b)

turn_fields :
    (x : ℕ) (s : List ℕ)
    → (is_space x ≡ false) × (x ≢ 10)
    → x ≢ 35
    → fstab_turn (x ∷ s) ≡ fstab_fields (x ∷ s)
unfolding fstab_turn skip_white
turn_fields x s (a, b) n =
    let e : ((x == 10) || is_space x) ≡ false = ground arith in
    let e' : (x == 35) ≡ false = ground arith in
    ap
      (λ (t : List ℕ).
        if first_byte t == 35
        then record { rest = skip_comment 35 (rest_bytes t); entry = none }
        else fstab_fields t)
      {x = skip_white (x ∷ s)} {y = x ∷ s} (rw e refl)
    ∙ rw e' refl

-- A line of four fields with one blank between them, of which the first three are words of at least
-- one byte, the first one no comment, and the last one is the number of a pass: a turn of the parser
-- gives the fields, and what follows the number is left.
pub fstab_turn_line :
    (x y z p : ℕ) (dev file opts rest : List ℕ)
    → IsWord (x ∷ dev)
    → IsWord (y ∷ file)
    → IsWord (z ∷ opts)
    → x ≢ 35
    → (is_space p ≡ false) × (p ≢ 10)
    → fstab_turn (x ∷ (dev ++ 32 ∷ y ∷ (file ++ 32 ∷ z ∷ (opts ++ 32 ∷ p ∷ rest))))
      ≡ record { rest = rest; entry = some (x ∷ dev, y ∷ file, z ∷ opts, p) }
unfolding fstab_fields with_dev with_file with_opts
fstab_turn_line x y z p dev file opts rest a b c n k =
    let e₃ = field_lem (z ∷ opts) p rest c k in
    let e₂ = field_lem (y ∷ file) z (opts ++ 32 ∷ p ∷ rest) b (begins_word z opts c) in
    let e₁ =
      field_lem (x ∷ dev) y (file ++ 32 ∷ z ∷ (opts ++ 32 ∷ p ∷ rest)) a (begins_word y file b) in
    turn_fields x (dev ++ 32 ∷ y ∷ (file ++ 32 ∷ z ∷ (opts ++ 32 ∷ p ∷ rest))) (begins_word x dev a)
      n
    ∙ (ap with_dev e₁ ∙ (ap (with_file (x ∷ dev)) e₂ ∙ ap (with_opts (x ∷ dev) (y ∷ file)) e₃))
