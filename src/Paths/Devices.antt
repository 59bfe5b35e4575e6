-- ===== src/Paths/Devices.antt =====
-- Paths that start with the name of a device.
use osz.Base.{
  ℕ, ◌≡◌, ◌≢◌, inl, inr, refl, sym, ap, ◌∙◌, false, ◌||◌, some, List, [], ◌∷◌, ◌++◌, Bool-cases,
  ◌==◌, if◌then◌else◌, arith,
}
use mathlib.Core.Path.{subst}
use mathlib.Core.List.{reverse, reverse-append, reverse-cons}
use osz.Base.Text.{codes, strcmp, strcmp→eq}
use osz.Paths.{
  Scan, path_end, drop_dots, drop_slash, canon_end, split_dev, after_dev, canon_start, canonize,
}
use osz.Paths.Parts.{Ends, dev_end, drop_slash-Ends, drop_dots-Ends}
use osz.Paths.Ends.{HasRoom, canonize_lem}

-- The bytes before the zero that ends a text.
abbrev pub c_string : List ℕ → List ℕ
c_string [] = []
c_string (c ∷ p) = let rest = c_string p in if c == 0 then [] else c ∷ rest

-- The bytes of a name: no `:`, `/`, `;` or `#`.
abbrev pub Plain : List ℕ → Type 0
Plain [] = Unit
Plain (c ∷ p) = (((c == 58) || (c == 47) || path_end c) ≡ false) × Plain p

split_dev-Plain : (d p : List ℕ) → Plain d → split_dev (d ++ 58 ∷ p) ≡ (d, 58 ∷ p)
unfolding split_dev
split_dev-Plain [] p h = refl
split_dev-Plain (c ∷ d) p h = ground (arith, split_dev-Plain d p h.1)

-- A reversed result of this end is a text that says `/dev/`.
Ends-Starts : (out : List ℕ) → Ends out → (q : List ℕ) × (reverse out ≡ codes "/dev/" ++ (0 ∷ q))
Ends-Starts [] h = elim h [ ]
Ends-Starts (c ∷ out) (inl e) = ([], ap reverse e)
Ends-Starts (c ∷ out) (inr h) =
    let (q, e) = Ends-Starts out h in
    (q ++ c ∷ [], reverse-cons c out ∙ ap (λ (xs : List ℕ). xs ++ c ∷ []) e)

Ends-append : (xs : List ℕ) → Ends (xs ++ dev_end)
Ends-append [] = inl refl
Ends-append (x ∷ xs) = inr (Ends-append xs)

out-after_dev : (p out : List ℕ) → (after_dev (58 ∷ p) out).out ≡ 47 ∷ out
unfolding after_dev
out-after_dev [] out = refl
out-after_dev (c ∷ p) out = elim (Bool-cases (c == 47)) [ inl b ↦ rw b refl | inr b ↦ rw b refl ]

canon_start-Ends :
    (root work d p : List ℕ)
    → Plain d
    → d ≢ codes "root"
    → Ends (canon_start root work (d ++ 58 ∷ p)).out
unfolding canon_start
canon_start-Ends root work d p h n =
    let out = reverse (codes "/dev/" ++ (0 ∷ d)) in
    let b : strcmp d (codes "root") ≡ false = elim (Bool-cases (strcmp d (codes "root"))) [
      | inl b ↦ absurd (n (strcmp→eq d (codes "root") b))
      | inr b ↦ b
    ] in
    let k : Ends (47 ∷ out) =
      inr
        (subst Ends (sym (reverse-append (codes "/dev/" ++ 0 ∷ []) d)) (Ends-append (reverse d))) in
    rw (split_dev-Plain d p h, b) (subst Ends (sym (out-after_dev p out)) k)

canon_end_lem : (s : Scan) → Ends s.out → c_string (canon_end s) ≡ codes "/dev/"
unfolding canon_end
canon_end_lem s h =
    let out = drop_dots (drop_slash s.out) in
    let k = drop_dots-Ends (drop_slash s.out) (drop_slash-Ends s.out h) in
    let k' : Ends (if s.prev == 47 then 47 ∷ out else out) = elim (Bool-cases (s.prev == 47)) [
      | inl b ↦ rw b (inr k)
      | inr b ↦ rw b k
    ] in
    ap c_string (Ends-Starts (if s.prev == 47 then 47 ∷ out else out) k').1

-- The result of `canonize` on a path by its state before the loop.
canonize-Ends :
    (pathmax : ℕ) (root work : List ℕ) (c : ℕ) (path : List ℕ)
    → HasRoom pathmax root work (c ∷ path)
    → Ends (canon_start root work (c ∷ path)).out
    → (out : List ℕ) × ((canonize pathmax root work (c ∷ path) ≡ some (some out))
        × (c_string out ≡ codes "/dev/"))
canonize-Ends pathmax root work c path r h =
    let (s, e, l, k) = canonize_lem pathmax root work c path r in
    (canon_end s, (e, canon_end_lem s (k h)))

-- For every device but `root`, whatever path follows the colon, as long as the buffer has room for
-- it, `canonize` ends with a buffer whose text is `/dev/`: the name of the device and the path are
-- behind a zero.
pub canonize_device :
    (pathmax : ℕ) (root work d p : List ℕ)
    → Plain d
    → d ≢ codes "root"
    → HasRoom pathmax root work (d ++ 58 ∷ p)
    → (out : List ℕ) × ((canonize pathmax root work (d ++ 58 ∷ p) ≡ some (some out))
        × (c_string out ≡ codes "/dev/"))
canonize_device pathmax root work [] p h n r =
    canonize-Ends pathmax root work 58 p r (canon_start-Ends root work [] p h n)
canonize_device pathmax root work (c ∷ d) p h n r =
    canonize-Ends pathmax root work c (d ++ 58 ∷ p) r (canon_start-Ends root work (c ∷ d) p h n)
