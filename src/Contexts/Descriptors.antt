-- ===== src/Contexts/Descriptors.antt =====
-- The descriptors of a context: `taskctx_open`, `taskctx_validfid`, `taskctx_close`, `taskctx_seek`
-- and `taskctx_write`.
use osz.Base.Errno.{eacces, ebadf, ebusy, einval, enoent, eperm, espipe}
use osz.Base.{
  ℕ, zero, suc, ◌+◌, ◌*◌, ◌/◌, ◌%◌, ◌^◌, bit_and, bit_or, Bool, true, false, not, ◌&&◌, ◌||◌,
  Option, none, some, List, [], ◌∷◌, ◌++◌, length, get_elem?, set, ltb, leb, ◌==◌, if◌then◌else◌,
  add64, sub64,
}
use osz.Fcb.{Fcb}
use osz.Fs.{minus_one, o_read, o_write, o_excl, o_append, o_creat, o_tmpfile, has, Fs, set_fcb}
use osz.Buffers.{fcb_write, fcb_flush}
use osz.Contexts.{OpenFile, Contexts, set_ctx, seterr, release_fcb, is_used}

-- The bit `FCB_FLAG_EXCL` of `flags`, and the flags with and without it
abbrev pub is_excl : Fcb → Bool
is_excl f = f.flags % 2 == 1

abbrev pub with_excl : Fcb → Fcb
with_excl f = record f { flags = f.flags / 2 * 2 + 1 }

abbrev pub without_excl : Fcb → Fcb
without_excl f = record f { flags = f.flags / 2 * 2 }

-- The modes of the device or file and of the call must be the same, unless the call appends or
-- creates and the file may be written. 15 is `O_AMSK`.
unfoldable pub is_permitted : (mode : ℕ) → Fcb → Bool
is_permitted mode f =
    (bit_and mode 15 == bit_and f.mode 15)
    || ((has mode o_append || has mode o_creat) && has f.mode o_write)

-- A call without an access mode reads; one that appends or creates writes.
unfoldable pub read_mode : ℕ → ℕ
read_mode mode =
    if not (has mode o_read) && not (has mode o_write) then bit_or mode o_read else mode

unfoldable pub open_mode : ℕ → ℕ
open_mode mode = if has mode o_creat || has mode o_append then bit_or mode o_write else mode

-- The first free descriptor from `i` on, or the one behind the last.
unfoldable pub free_slot : ℕ → List OpenFile → ℕ
free_slot i [] = i
free_slot i (o ∷ os) = let rest = free_slot (suc i) os in if o.fid == minus_one then i else rest

-- Whether a descriptor of the array is free.
abbrev pub is_free : List OpenFile → ℕ → Bool
is_free [] i = false
is_free (o ∷ os) zero = o.fid == minus_one
is_free (o ∷ os) (suc i) = is_free os i

-- The descriptor that the caller asks for, when it is free, or else the first free one.
unfoldable pub pick_slot : ℕ → List OpenFile → ℕ
pick_slot idx os = if not (idx == minus_one) && is_free os idx then idx else free_slot 0 os

-- A write to a descriptor, or a new one behind the last.
unfoldable pub put_file : ℕ → OpenFile → List OpenFile → List OpenFile
put_file i o os = if ltb i (length os) then set os i o else os ++ o ∷ []

-- The new descriptor, and the entry of the file.
unfoldable pub open_at : (tc fid mode offs i : ℕ) → Fcb → Contexts → ℕ × Contexts
open_at tc fid mode offs i f s =
    let o : OpenFile = record { fid = fid; mode = mode; offs = offs; unionidx = 0 } in
    let c = s.ctx tc in
    let f₁ = if has mode o_excl || has f.mode o_excl then with_excl f else f in
    let s₁ =
      set_ctx tc (record c { openfiles = put_file i o c.openfiles; nfiles = suc c.nfiles }) s in
    (i, record s₁ { fs = set_fcb fid (record f₁ { nopen = suc f.nopen }) s.fs })

-- The checks of `taskctx_open` on the entry.
unfoldable pub open_checked : (tc fid mode offs idx : ℕ) → Fcb → Contexts → ℕ × Contexts
open_checked tc fid mode offs idx f s =
    let m = read_mode mode in
    if is_excl f
    then (minus_one, seterr ebusy s)
    else if not (is_permitted m f)
    then (minus_one, seterr eacces s)
    else open_at tc fid (open_mode m) offs (pick_slot idx (s.ctx tc).openfiles) f s

-- The entry of an `fid_t` in range and in use.
abbrev pub used_fcb : ℕ → Contexts → Option Fcb
used_fcb fid s = if is_used fid s then get_elem? s.fs.fcbs.fcb fid else none

unfoldable pub taskctx_open : (tc fid mode offs idx : ℕ) → Contexts → ℕ × Contexts
taskctx_open tc fid mode offs idx s = elim (if tc == 0 then none else used_fcb fid s) [
  | none ↦ (minus_one, seterr enoent s)
  | some f ↦ open_checked tc fid mode offs idx f s
]

-- The open file of a descriptor.
abbrev pub file_of : (tc idx : ℕ) → Contexts → Option OpenFile
file_of tc idx s = if tc == 0 then none else get_elem? (s.ctx tc).openfiles idx

-- The source does not compare the entry with the size of the table; here the file of an entry behind
-- it is not valid.
unfoldable pub taskctx_validfid : (tc idx : ℕ) → Contexts → Bool
taskctx_validfid tc idx s = elim (file_of tc idx s) [
  | none ↦ false
  | some o ↦ not (o.fid == minus_one) && is_used o.fid s
]

-- The open file of a valid descriptor, and its entry.
unfoldable pub valid_file : (tc idx : ℕ) → Contexts → Option (OpenFile × Fcb)
valid_file tc idx s =
    if taskctx_validfid tc idx s
    then elim (file_of tc idx s) [
      | none ↦ none
      | some o ↦ elim (get_elem? s.fs.fcbs.fcb o.fid) [ none ↦ none | some f ↦ some (o, f) ]
    ]
    else none

-- `SEEK_CUR` is 1 and `SEEK_END` is 2; `offs` is the 64 bit word of an `off_t`.
unfoldable pub seek_to : OpenFile → Fcb → (offs whence : ℕ) → ℕ
seek_to o f offs whence =
    if whence == 1 then add64 o.offs offs else if whence == 2 then add64 f.filesize offs else offs

abbrev pub move_to : (tc idx : ℕ) → OpenFile → ℕ → Contexts → Contexts
move_to tc idx o p s =
    let c = s.ctx tc in
    set_ctx tc (record c { openfiles = set c.openfiles idx (record o { offs = p }) }) s

unfoldable pub taskctx_seek : (tc idx offs whence : ℕ) → Contexts → Bool × Contexts
taskctx_seek tc idx offs whence s = elim (valid_file tc idx s) [
  | none ↦ (false, seterr ebadf s)
  | some (o, f) ↦
      let p = seek_to o f offs whence in
      if not (f.type == 0)
      then (false, seterr espipe s)
      else if leb (2 ^ 63) p
      then (false, seterr einval (move_to tc idx o 0 s))
      else (true, move_to tc idx o p s)
]

-- The number of bytes written. Pipes, sockets and devices take none yet.
unfoldable pub taskctx_write : (tc idx : ℕ) → List ℕ → Contexts → Option (ℕ × Contexts)
taskctx_write tc idx buf s = elim (valid_file tc idx s) [
  | none ↦ some (0, seterr ebadf s)
  | some (o, f) ↦
      if not (has f.mode o_write)
      then some (0, seterr eacces s)
      else if ltb 2 f.type && ltb f.type 6
      then some (0, s)
      else if (f.type == 1) || (f.type == 2)
      then some (0, seterr eperm s)
      else elim (fcb_write o.fid o.offs buf s.fs) [
        | none ↦ none
        | some (true, fs) ↦
            some (length buf, move_to tc idx o (add64 o.offs (length buf)) (record s { fs = fs }))
        | some (false, fs) ↦ some (0, record s { fs = fs })
      ]
]

-- Free descriptors at the end of the array are given back.
unfoldable pub keep_file : OpenFile → List OpenFile → List OpenFile
keep_file o [] = if o.fid == minus_one then [] else o ∷ []
keep_file o (p ∷ ps) = o ∷ p ∷ ps

unfoldable pub trim_files : List OpenFile → List OpenFile
trim_files [] = []
trim_files (o ∷ os) = keep_file o (trim_files os)

-- The descriptor becomes free.
unfoldable pub drop_file : (tc idx : ℕ) → Bool → OpenFile → Contexts → Contexts
drop_file tc idx dontfree o s =
    let c = s.ctx tc in
    let os = set c.openfiles idx (record o { fid = minus_one }) in
    set_ctx tc
      (record c { openfiles = if dontfree then os else trim_files os; nfiles = sub64 c.nfiles 1 }) s

-- The entry of the file is released, but that of a temporary file is left to be removed. The mode of
-- the entry is compared with the type of directories, 1.
unfoldable pub close_fcb : (d : ℕ) → OpenFile → Contexts → Option Contexts
close_fcb d o s = elim (get_elem? s.fs.fcbs.fcb o.fid) [
  | none ↦ none
  | some f ↦
      if has o.mode o_tmpfile && not (f.mode == 1)
      then some s
      else release_fcb d o.fid (record s { fs = set_fcb o.fid (without_excl f) s.fs })
]

-- `fresh` is what memory holds that `malloc` gives, `d` a bound on how deep unions hold unions.
unfoldable pub taskctx_close :
    (ℕ → List ℕ) → (d tc idx : ℕ) → Bool → Contexts → Option (Bool × Contexts)
taskctx_close fresh d tc idx dontfree s = elim (valid_file tc idx s) [
  | none ↦ some (false, s)
  | some (o, f) ↦
      let flushed : Option (Bool × Fs) =
        if has o.mode o_write then fcb_flush fresh o.fid s.fs else some (true, s.fs) in
      elim flushed [
        | none ↦ none
        | some (b, fs) ↦ elim (close_fcb d o (record s { fs = fs })) [
          | none ↦ none
          | some s' ↦ some (true, drop_file tc idx dontfree o s')
        ]
      ]
]
