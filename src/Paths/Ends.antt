-- ===== src/Paths/Ends.antt =====
-- `canonize` ends, within its buffer when the paths are short enough.
use osz.Base.{
  true, ℕ, ◌+◌, ◌≤◌, ◌<◌, ◌≡◌, refl, ap, ◌∙◌, false, Option, none, some, List, [], ◌∷◌, ◌++◌,
  length, length-append, Bool-cases, inl, inr, ltb, ◌==◌, arith,
}
use mathlib.Core.List.{reverse, reverse-cons}
use osz.Base.Text.{codes, first_byte, strcmp}
use osz.Fcb.{ends_slash}
use osz.Paths.{
  Scan, Buffer, in_buffer, split_dev, after_dev, canon_start, drop_dots, drop_slash, canon_end,
  start_size, canonize,
}
use osz.Paths.Parts.{Ends}
use osz.Paths.Room.{size, canon_loop_lem}

length-split_dev : (p : List ℕ) → length (split_dev p).0 + length (split_dev p).1 ≡ length p
unfolding split_dev
length-split_dev [] = refl
length-split_dev (c ∷ p) = ground (arith, length-split_dev p)

pub length-reverse : (xs : List ℕ) → length (reverse xs) ≡ length xs
length-reverse [] = refl
length-reverse (x ∷ xs) =
    ap length (reverse-cons x xs)
    ∙ omega (arith, length-append (reverse xs) (x ∷ []), length-reverse xs)

size-after_dev :
    (p out : List ℕ)
    → (first_byte p == 58) ≡ true
    → ((after_dev p out).out ≡ 47 ∷ out) × (length (after_dev p out).rest + 1 ≤ length p)
unfolding after_dev
size-after_dev [] out h = ground arith
size-after_dev (c ∷ []) out h = (ground arith, ground arith)
size-after_dev (c ∷ x ∷ p) out h = elim (Bool-cases (x == 47)) [
  | inl b ↦ rw b (refl, omega arith)
  | inr b ↦ rw b (refl, omega arith)
]

-- The buffer has room for the paths: behind the text of the path, with `/dev/` or the path of a
-- directory before it, there are three bytes.
pub record HasRoom (pathmax : ℕ) (root work path : List ℕ) : Type 0 where
  pub for_dev : length path + 9 ≤ pathmax
  pub for_root : length root + length path + 3 ≤ pathmax
  pub for_work : length work + length path + 3 ≤ pathmax

-- What is written before the loop fits.
record Starts (pathmax n bytes : ℕ) (s : Scan) : Type 0 where
  turns : length s.rest ≤ n
  fits : size s + 3 ≤ pathmax
  begun : bytes ≤ pathmax

canon_start-Starts :
    (pathmax : ℕ) (root work : List ℕ) (c : ℕ) (path : List ℕ)
    → HasRoom pathmax root work (c ∷ path)
    → Starts pathmax
        (length (c ∷ path))
        (start_size root work (c ∷ path))
        (canon_start root work (c ∷ path))
unfolding canon_start start_size
canon_start-Starts pathmax root work c path h =
    let (d, rest) = split_dev (c ∷ path) in
    let l = length-split_dev (c ∷ path) in
    let dev = reverse (codes "/dev/" ++ (0 ∷ d)) in
    let k : length dev ≡ 6 + length d = omega (arith, length-reverse (codes "/dev/" ++ (0 ∷ d))) in
    elim (Bool-cases (first_byte rest == 58)) [
      | inl a ↦ rw a (elim (Bool-cases (strcmp d (codes "root"))) [
        | inl b ↦
            let (e, m) = size-after_dev rest [] a in
            rw b (record {
              turns = omega (arith, h.for_dev);
              fits = omega (arith, h.for_dev, ap length e);
              begun = omega (arith, h.for_dev, ap length e);
            })
        | inr b ↦
            let (e, m) = size-after_dev rest dev a in
            rw b (record {
              turns = omega (arith, h.for_dev);
              fits = omega (arith, h.for_dev, ap length e, k);
              begun = omega (arith, h.for_dev, ap length e, k);
            })
      ])
      | inr a ↦ rw a (elim (Bool-cases (c == 47)) [
        | inl b ↦ rw b (elim (Bool-cases (ends_slash root)) [
          | inl e ↦ rw e (record {
            turns = omega arith;
            fits = omega (arith, h.for_root, length-reverse root);
            begun = omega (arith, h.for_root, length-reverse root);
          })
          | inr e ↦ rw e (record {
            turns = omega arith;
            fits = omega (arith, h.for_root, length-reverse root);
            begun = omega (arith, h.for_root, length-reverse root);
          })
        ])
        | inr b ↦ rw b (record {
          turns = omega arith;
          fits = omega (arith, h.for_work, length-reverse work);
          begun = omega (arith, h.for_work, length-reverse work);
        })
      ])
    ]

length-drop_dots : (out : List ℕ) → length (drop_dots out) ≤ length out
unfolding drop_dots
length-drop_dots [] = omega arith
length-drop_dots (c ∷ out) = ground (arith, length-drop_dots out)

length-drop_slash : (out : List ℕ) → length (drop_slash out) ≤ length out
length-drop_slash [] = omega arith
length-drop_slash (c ∷ out) = ground arith

length-canon_end : (s : Scan) → length (canon_end s) ≤ length s.out + 1
unfolding canon_end
length-canon_end s =
    let out = drop_dots (drop_slash s.out) in
    let a = length-drop_dots (drop_slash s.out) in
    let b = length-drop_slash s.out in
    elim (Bool-cases (s.prev == 47)) [
      | inl e ↦ rw e (omega (arith, length-reverse (47 ∷ out)))
      | inr e ↦ rw e (omega (arith, length-reverse out))
    ]

in_buffer_lem :
    (pathmax : ℕ) (text : List ℕ)
    → length text < pathmax
    → in_buffer pathmax text ≡ some (some text)
unfolding in_buffer
in_buffer_lem pathmax text h = ground arith

-- The result of `canonize` by the state at the end of its loop.
pub canonize_lem :
    (pathmax : ℕ) (root work : List ℕ) (c : ℕ) (path : List ℕ)
    → HasRoom pathmax root work (c ∷ path)
    → (s : Scan) × (canonize pathmax root work (c ∷ path) ≡ some (some (canon_end s)))
      × (length (canon_end s) < pathmax)
      × (Ends (canon_start root work (c ∷ path)).out → Ends s.out)
unfolding canonize
canonize_lem pathmax root work c path h =
    let p = c ∷ path in
    let s₀ = canon_start root work p in
    let v = canon_start-Starts pathmax root work c path h in
    let (s, e, l, k) =
      canon_loop_lem pathmax (length p + 1) (size s₀) s₀ (omega (arith, v.turns)) (λ z. omega arith)
        (omega arith) (omega (arith, v.fits)) in
    let m : length (canon_end s) < pathmax = omega (arith, length-canon_end s, v.fits) in
    let q : ltb pathmax (start_size root work p) ≡ false = ground (arith, v.begun) in
    (s, rw q (ap finish e ∙ in_buffer_lem pathmax (canon_end s) m), m, k)
  where
    finish : Option Scan → Buffer
    finish none = none
    finish (some s) = in_buffer pathmax (canon_end s)

-- `canonize` ends with a result for every path of at least one byte whose buffer has room for it:
-- the loop takes at most one turn more than the path has bytes, no write lies behind the buffer, and
-- the text is shorter than the buffer.
pub canonize_total :
    (pathmax : ℕ) (root work : List ℕ) (c : ℕ) (path : List ℕ)
    → HasRoom pathmax root work (c ∷ path)
    → (out : List ℕ) × (canonize pathmax root work (c ∷ path) ≡ some (some out))
      × (length out < pathmax)
canonize_total pathmax root work c path h =
    let (s, e, l, k) = canonize_lem pathmax root work c path h in (canon_end s, e, l)
