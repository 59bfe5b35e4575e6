-- ===== src/Paths.antt =====
-- Paths in the file system service, src/fs/vfs.c: the path stack with `pathpush` and `pathpop`,
-- `pathcat`, `canonize`, `getver` and `getoffs`. A text is a list of bytes without the zero that ends
-- it; the heap has room. A buffer for a path has `pathmax` bytes: a call that writes behind it, which
-- the source does not prevent, has no result.
pub mod Stack
pub mod Cat
pub mod Devices
pub mod Parts
pub mod Room
pub mod Ends
mod Tests
use osz.Base.{
  ℕ, zero, suc, ◌+◌, ◌-◌, ◌*◌, ◌≤◌, Bool, true, false, not, ◌&&◌, ◌||◌, Option, none, some, List,
  [], ◌∷◌, ◌++◌, length, drop, ltb, leb, ◌==◌, if◌then◌else◌,
}
use mathlib.Core.List.{reverse}
use osz.Base.Text.{codes, first_byte, rest_bytes, strcmp}
use osz.Fcb.{ends_slash}
use osz.Numbers.{atoll}

-- `PATHSTACKSIZE`
abbrev pub path_stack_size : ℕ
path_stack_size = 64

-- A path stack, from its bottom: an inode and the rest of a path.
abbrev pub PathStack : Type 0
PathStack = List (ℕ × List ℕ)

-- A full stack loses the element at its bottom.
unfoldable pub pathpush : ℕ → List ℕ → PathStack → PathStack
pathpush lsn path st =
    if length st == path_stack_size then drop 1 st ++ (lsn, path) ∷ [] else st ++ (lsn, path) ∷ []

unfoldable pub pathpop : PathStack → Option ((ℕ × List ℕ) × PathStack)
pathpop [] = none
pathpop (x ∷ []) = some (x, [])
pathpop (x ∷ y ∷ st) = elim (pathpop (y ∷ st)) [ none ↦ none | some (z, st') ↦ some (z, x ∷ st') ]

-- The text in a buffer of `pathmax` bytes: `some none` is NULL, and `none` a write behind the buffer.
abbrev pub Buffer : Type 0
Buffer = Option (Option (List ℕ))

-- A text whose zero at the end is the last byte that was written.
unfoldable pub in_buffer : (pathmax : ℕ) (text : List ℕ) → Buffer
in_buffer pathmax text = if leb pathmax (length text) then none else some (some text)

-- The name behind a path with a slash between them, or NULL, in the buffer of the path; 47 is the
-- slash.
unfoldable pub pathcat : (pathmax : ℕ) (path filename : List ℕ) → Buffer
pathcat pathmax [] filename = some none
pathcat pathmax (c ∷ path) [] = some (some (c ∷ path))
pathcat pathmax (c ∷ path) (x ∷ name) =
    let path' = c ∷ path in
    if leb pathmax (length path' + length (x ∷ name))
    then some none
    else in_buffer pathmax (
        (if ends_slash path' then path' else path' ++ 47 ∷ [])
        ++ (if x == 47 then name else x ∷ name))

-- `PATHEND`: `;`, `#` or the end
abbrev pub path_end : ℕ → Bool
path_end c = (c == 59) || (c == 35) || (c == 0)

-- The text behind the first byte `c`, if there is one.
unfoldable pub behind : ℕ → List ℕ → Option (List ℕ)
behind c [] = none
behind c (x ∷ p) = let rest = behind c p in if x == c then some p else rest

-- The version: a digit from 1 to 9 behind the first `;`, else 0.
unfoldable pub getver : List ℕ → ℕ
getver p = elim (behind 59 p) [
  | none ↦ 0
  | some q ↦ if ltb 48 (first_byte q) && leb (first_byte q) 57 then first_byte q - 48 else 0
]

-- The offset: the number behind the first `#`, as a 64 bit word, else 0.
unfoldable pub getoffs : List ℕ → ℕ
getoffs p = elim (behind 35 p) [ none ↦ 0 | some q ↦ atoll q ]

-- The state of `canonize`: the rest of the path, the byte before it (0 when there is none), and the
-- result so far, the last byte first.
pub record Scan : Type 0 where
  pub rest : List ℕ
  pub prev : ℕ
  pub out : List ℕ

abbrev pub here : Scan → ℕ
here s = first_byte s.rest

-- `i++`; the byte behind the path is 0.
abbrev pub advance : Scan → Scan
advance s = record s { rest = rest_bytes s.rest; prev = first_byte s.rest }

abbrev pub emit : ℕ → Scan → Scan
emit c s = record s { out = c ∷ s.out }

unfoldable pub skip_slashes : (rest : List ℕ) (prev : ℕ) → List ℕ × ℕ
skip_slashes [] prev = ([], prev)
skip_slashes (c ∷ p) prev = let next = skip_slashes p c in if c == 47 then next else (c ∷ p, prev)

-- Copies a name.
unfoldable pub copy_name : (rest : List ℕ) (prev : ℕ) (out : List ℕ) → Scan
copy_name [] prev out = record { rest = []; prev = prev; out = out }
copy_name (c ∷ p) prev out =
    let next = copy_name p c (c ∷ out) in
    if (c == 47) || path_end c then record { rest = c ∷ p; prev = prev; out = out } else next

unfoldable pub copy_digits : (rest : List ℕ) (prev : ℕ) (out : List ℕ) → Scan
copy_digits [] prev out = record { rest = []; prev = prev; out = out }
copy_digits (c ∷ p) prev out =
    let next = copy_digits p c (c ∷ out) in
    if leb 48 c && leb c 57 then next else record { rest = c ∷ p; prev = prev; out = out }

-- `-` is 45.
abbrev pub skip_sign : Scan → Scan
skip_sign s = if here s == 45 then advance s else s

abbrev pub is_digit : ℕ → Bool
is_digit c = leb 49 c && leb c 57

-- The byte after the next one, and whether there is one.
abbrev pub second_byte : List ℕ → ℕ
second_byte p = first_byte (rest_bytes p)

-- The part from `;` on. `true` ends the loop.
unfoldable pub version_part : Scan → Bool × Scan
version_part s =
    let s₁ = skip_sign (advance s) in
    let next = second_byte s₁.rest in
    if first_byte s.out == 47
    then (true, s)
    else if ltb 1 (length s₁.rest) && is_digit (here s₁) && ((next == 35) || (next == 0))
    then (false, advance (emit (here s₁) (emit 59 s₁)))
    else (false, s₁)

-- The part from `#` on, which ends the loop.
unfoldable pub offset_part : Scan → Scan
offset_part s =
    let s₁ = skip_sign (advance s) in
    let s₂ = if s₁.prev == 45 then emit 45 (emit 35 s₁) else emit 35 s₁ in
    if first_byte s.out == 47
    then s
    else if is_digit (here s₁)
    then copy_digits s₂.rest s₂.prev s₂.out
    else s₁

-- What follows the version.
unfoldable pub name_end : Bool × Scan → Bool × Scan
name_end (true, s) = (true, s)
name_end (false, s) = if here s == 35 then (true, offset_part s) else (false, advance s)

-- The body of the loop after `/./` and `.../../` were dealt with.
unfoldable pub name_part : Scan → Bool × Scan
name_part s =
    let s₁ = copy_name s.rest s.prev s.out in
    name_end (if here s₁ == 59 then version_part s₁ else (false, s₁))

-- Whether the result ends with `.../` and has more than that.
unfoldable pub ends_joker : List ℕ → Bool
ends_joker (a ∷ b ∷ c ∷ d ∷ x ∷ out) = (a == 47) && (b == 46) && (c == 46) && (d == 46)
ends_joker _ = false

-- A turn starts with a slash at the end of the result.
unfoldable pub with_slash : Scan → Scan
with_slash s = if first_byte s.out == 47 then s else emit 47 s

-- The body of the loop; `true` ends the loop.
unfoldable pub canon_step : Scan → Bool × Scan
canon_step s =
    let s₁ = with_slash s in
    let (rest, prev) = skip_slashes s₁.rest s₁.prev in
    let s₂ : Scan = record { rest = rest; prev = prev; out = s₁.out } in
    let a = second_byte rest in
    let b = second_byte (rest_bytes rest) in
    if (here s₂ == 46) && ltb 1 (length rest) && ((a == 47) || path_end a)
    then (false, advance (advance s₂))
    else if ends_joker s₂.out
        && (here s₂ == 46)
        && ltb 2 (length rest)
        && (a == 46)
        && ((b == 47) || path_end b)
    then (false, advance (advance (advance (record s₂ { out = drop 4 s₂.out }))))
    else name_part s₂

-- Whether a turn writes behind the buffer: what follows the slash is only appended to.
unfoldable pub overruns : (pathmax : ℕ) → Scan → Bool
overruns pathmax s =
    ltb pathmax (length (with_slash s).out) || ltb pathmax (length (canon_step s).1.out)

-- The loop, for at most `n` turns.
unfoldable pub canon_loop : (pathmax n : ℕ) → Scan → Option Scan
canon_loop pathmax zero s = none
canon_loop pathmax (suc n) s =
    let (stop, s') = canon_step s in
    let next = canon_loop pathmax n s' in
    if path_end (here s)
    then some s
    else if overruns pathmax s
    then none
    else if stop
    then some s'
    else next

unfoldable pub drop_dots : List ℕ → List ℕ
drop_dots [] = []
drop_dots (c ∷ out) = let rest = drop_dots out in if c == 46 then rest else c ∷ out

abbrev pub drop_slash : List ℕ → List ℕ
drop_slash [] = []
drop_slash (c ∷ out) = if c == 47 then out else c ∷ out

-- What follows the loop.
unfoldable pub canon_end : Scan → List ℕ
canon_end s =
    let out = drop_dots (drop_slash s.out) in reverse (if s.prev == 47 then 47 ∷ out else out)

-- The bytes before the first `:`, `/`, `;` or `#`, and the rest.
unfoldable pub split_dev : List ℕ → List ℕ × List ℕ
split_dev [] = ([], [])
split_dev (c ∷ p) =
    let (d, rest) = split_dev p in
    if (c == 58) || (c == 47) || path_end c then ([], c ∷ p) else (c ∷ d, rest)

-- A slash behind the colon is skipped.
unfoldable pub after_dev : List ℕ → (out : List ℕ) → Scan
after_dev rest out =
    let s : Scan = record { rest = rest_bytes rest; prev = 58; out = 47 ∷ out } in
    if here s == 47 then advance s else s

-- The state before the loop, by the paths of the root and the working directory of the task. The
-- size that the source takes for `"/dev/"` counts the zero that ends it.
unfoldable pub canon_start : (root work path : List ℕ) → Scan
canon_start root work path =
    let (d, rest) = split_dev path in
    if first_byte rest == 58
    then (if strcmp d (codes "root")
        then after_dev rest []
        else after_dev rest (reverse (codes "/dev/" ++ (0 ∷ d))))
    else if first_byte path == 47
    then (if ends_slash root
        then record { rest = rest_bytes path; prev = 47; out = reverse root }
        else record { rest = path; prev = 0; out = reverse root })
    else record { rest = path; prev = 0; out = reverse work }

-- The bytes written before the loop; with the path of a directory its zero is one of them.
unfoldable pub start_size : (root work path : List ℕ) → ℕ
start_size root work path =
    let n = length (canon_start root work path).out in
    if first_byte (split_dev path).1 == 58 then n else n + 1

-- The bytes of the buffer; NULL for an empty path.
unfoldable pub canonize : (pathmax : ℕ) (root work path : List ℕ) → Buffer
canonize pathmax root work [] = some none
canonize pathmax root work (c ∷ path) =
    let p = c ∷ path in
    if ltb pathmax (start_size root work p)
    then none
    else elim (canon_loop pathmax (length p + 1) (canon_start root work p)) [
      | none ↦ none
      | some s ↦ in_buffer pathmax (canon_end s)
    ]
