-- ===== src/Vfs/Fstab.antt =====
-- Mounts by name, src/fs/mtab.c: `mtab_fstab`, the parser of the list of file systems, and
-- `mtab_del`. The text is the bytes from the pointer to the end; reads behind it give 0, and the
-- writes there are left out. The zeros that the parser writes behind the words end the words of the
-- later passes where blanks ended them before, so a pass does not change the text for the next.
pub mod Line
use osz.Base.{
  ℕ, zero, suc, ◌+◌, ◌-◌, ◌≡◌, ◌≢◌, refl, ap, ◌∙◌, Bool, true, false, not, ◌&&◌, ◌||◌, Option, none,
  some, List, [], ◌∷◌, ◌++◌, length, erase_idx, ◌==◌, if◌then◌else◌, inl, inr, Bool-cases, arith,
}
use osz.Base.Errno.{einval}
use osz.Base.Text.{codes, first_byte, rest_bytes, strcmp}
use osz.Fcb.{Fcb}
use osz.Fs.{is_none}
use osz.Paths.{canonize}
use osz.Vfs.{Vfs, Mount, fails, entry?}
use osz.Vfs.Located.{mount_path}
use osz.Vfs.Mounts.{mtab_add}

-- A blank, and a byte that ends a word: no newline.
abbrev pub is_space : ℕ → Bool
is_space c = (c == 9) || (c == 32)

abbrev pub ends_word : ℕ → Bool
ends_word c = (c == 0) || is_space c

unfoldable pub skip_white : List ℕ → List ℕ
skip_white [] = []
skip_white (c ∷ s) = let rest = skip_white s in if (c == 10) || is_space c then rest else c ∷ s

unfoldable pub skip_space : List ℕ → List ℕ
skip_space [] = []
skip_space (c ∷ s) = let rest = skip_space s in if is_space c then rest else c ∷ s

-- Behind the end of the line; `before` is the byte before the text.
unfoldable pub skip_comment : (before : ℕ) → List ℕ → List ℕ
skip_comment before [] = []
skip_comment before (c ∷ s) = let rest = skip_comment c s in if before == 10 then c ∷ s else rest

-- A word and the text from its end on.
unfoldable pub word : List ℕ → List ℕ × List ℕ
word [] = ([], [])
word (c ∷ s) = let (w, rest) = word s in if ends_word c then ([], c ∷ s) else (c ∷ w, rest)

-- A field: the word, the text behind it and the blanks, and whether a newline is there instead of
-- the next field.
unfoldable pub field_of : List ℕ × List ℕ → List ℕ × List ℕ × Bool
field_of (w, end) =
    let rest = skip_space (rest_bytes end) in
    if first_byte end == 10 then (w, end, true) else (w, rest, first_byte rest == 10)

unfoldable pub field : List ℕ → List ℕ × List ℕ × Bool
field s = field_of (word s)

-- A turn of the loop: the text that is left, and the fields of an entry with its pass.
pub record Turn : Type 0 where
  pub rest : List ℕ
  pub entry : Option (List ℕ × List ℕ × List ℕ × ℕ)

-- The fields one after the other; a newline before the next one ends the turn.
unfoldable pub with_opts : (dev file : List ℕ) → List ℕ × List ℕ × Bool → Turn
with_opts dev file (opts, s, true) = record { rest = s; entry = none }
with_opts dev file (opts, s, false) = record {
  rest = rest_bytes s;
  entry = some (dev, file, opts, first_byte s);
}

unfoldable pub with_file : (dev : List ℕ) → List ℕ × List ℕ × Bool → Turn
with_file dev (file, s, true) = record { rest = s; entry = none }
with_file dev (file, s, false) = with_opts dev file (field s)

unfoldable pub with_dev : List ℕ × List ℕ × Bool → Turn
with_dev (dev, s, true) = record { rest = s; entry = none }
with_dev (dev, s, false) = with_file dev (field s)

unfoldable pub fstab_fields : List ℕ → Turn
fstab_fields s = with_dev (field s)

unfoldable pub fstab_turn : List ℕ → Turn
fstab_turn s =
    let s₁ = skip_white s in
    if first_byte s₁ == 35
    then record { rest = skip_comment 35 (rest_bytes s₁); entry = none }
    else fstab_fields s₁

-- `chain`, `zeroblk` and `random` are as in `readblock`; `depth` bounds the recursion of `mtab_add`.
module _ (chain : ℕ) (zeroblk random : ℕ → List ℕ) (depth : ℕ) where
  unfoldable pub fstab_mount : (pass : ℕ) → Option (List ℕ × List ℕ × List ℕ × ℕ) → Vfs → Option Vfs
  fstab_mount pass none v = some v
  fstab_mount pass (some (dev, file, opts, p)) v =
      if not (p == pass) then some v else elim (mtab_add chain zeroblk random depth dev file v) [
        | none ↦ none
        | some (r, v') ↦ some v'
      ]

  -- The text from the pointer on in pass `pass`, for at most `n` turns.
  unfoldable pub fstab_pass : (n pass : ℕ) → List ℕ → Vfs → Option Vfs
  fstab_pass n pass [] v = some v
  fstab_pass zero pass (c ∷ s) v = none
  fstab_pass (suc n) pass (c ∷ s) v =
      let t = fstab_turn (c ∷ s) in
      elim (fstab_mount pass t.entry v) [ none ↦ none | some v' ↦ fstab_pass n pass t.rest v' ]

  -- The first pass has to mount `/`, else the RAM disk is mounted there; 49 is `1`.
  unfoldable pub after_pass : (pass : ℕ) → Vfs → Option Vfs
  after_pass pass v =
      if (pass == 49) && not v.rootmounted
      then elim (mtab_add chain zeroblk random depth (codes "/dev/root") (codes "/") v) [
        | none ↦ none
        | some (r, v') ↦ some v'
      ]
      else some v

  -- `k` passes from `pass` on.
  unfoldable pub fstab_passes : (k pass : ℕ) → List ℕ → Vfs → Option Vfs
  fstab_passes zero pass s v = some v
  fstab_passes (suc k) pass s v = elim (fstab_pass (length s) pass s v) [
    | none ↦ none
    | some v₁ ↦ elim (after_pass pass v₁) [ none ↦ none | some v₂ ↦ fstab_passes k (suc pass) s v₂ ]
  ]

  -- The service exits when an error is pending.
  unfoldable pub mtab_fstab : List ℕ → Vfs → Option Vfs
  mtab_fstab s v = if v.fs.errno == 0 then fstab_passes 9 49 s v else none

-- Whether the path is that of an entry; NULL is not compared.
unfoldable pub names : Option (List ℕ) → Option (List ℕ) → Option Bool
names none p = some false
names (some a) none = none
names (some a) (some p) = some (strcmp a p)

-- The first mount of the device or at the mount point; `none` is a read through NULL.
unfoldable pub find_named :
    (absdev absmnt : Option (List ℕ)) (fcb : List Fcb) (i : ℕ) → List Mount → Option (Option ℕ)
find_named absdev absmnt fcb i [] = some none
find_named absdev absmnt fcb i (m ∷ ms) =
    let rest = find_named absdev absmnt fcb (suc i) ms in
    elim (names absdev (mount_path fcb (record m { mountpoint = m.storage }))) [
      | none ↦ none
      | some true ↦ some (some i)
      | some false ↦ elim (names absmnt (mount_path fcb m)) [
        | none ↦ none
        | some true ↦ some (some i)
        | some false ↦ rest
      ]
    ]

-- The mount is taken out of the table; the counters of its entries stay.
unfoldable pub take_out : Vfs → Option (Option ℕ) → Option (Bool × Vfs)
take_out v none = none
take_out v (some none) = some (false, v)
take_out v (some (some i)) = some (true, record v { mtab = erase_idx v.mtab i })

-- One of the names has to be given. At least one mount stays in the table.
unfoldable pub mtab_del : (pathmax : ℕ) (root work dev file : List ℕ) → Vfs → Option (Bool × Vfs)
mtab_del pathmax root work dev file v = elim (canonize pathmax root work dev) [
  | none ↦ none
  | some absdev ↦ elim (canonize pathmax root work file) [
    | none ↦ none
    | some absmnt ↦
        if is_none absdev && is_none absmnt
        then some (fails einval false v)
        else take_out v (find_named absdev absmnt v.fs.fcbs.fcb 0 v.mtab)
  ]
]
