-- ===== src/Contexts/Files.antt =====
-- What opening a file gives, and exclusive access.
use mathlib.Core.Path.{subst}
use osz.Base.Errno.{ebusy}
use osz.Base.{
  ℕ, zero, suc, ◌+◌, ◌<◌, ◌≤◌, ◌≡◌, ◌≢◌, sym, ap, ◌∙◌, true, false, not, ◌&&◌, ◌||◌, none, some,
  List, [], ◌∷◌, ◌++◌, length, get_elem?, set, get_elem?-set_self, get_elem?-set_ne,
  get_elem?-append_end, get_elem?-length, get_elem?-append_left, Bool-cases, inl, inr, Option-cases,
  ltb, ◌==◌, if◌then◌else◌, arith,
}
use osz.Fcb.{Fcb}
use osz.Fs.{minus_one, o_excl, has}
use osz.Contexts.{OpenFile, Contexts, seterr, is_used}
use osz.Contexts.Descriptors.{
  is_excl, with_excl, is_permitted, read_mode, open_mode, free_slot, is_free, pick_slot, put_file,
  open_at, open_checked, used_fcb, taskctx_open, file_of, taskctx_validfid,
}

-- A slot that may be taken: a free descriptor, or the one behind the last.
abbrev MayTake : List OpenFile → ℕ → Type 0
MayTake os i = (i ≤ length os) × ((o : OpenFile) → get_elem? os i ≡ some o → o.fid ≡ minus_one)

free_slot-MayTake : (i : ℕ) (os : List OpenFile) → (d : ℕ) × (free_slot i os ≡ i + d) × MayTake os d
unfolding free_slot
free_slot-MayTake i [] = (0, omega arith, (omega arith, λ o e. ground arith))
free_slot-MayTake i (p ∷ os) = elim (Bool-cases (p.fid == minus_one)) [
  | inl b ↦ (0, ground arith, (omega arith, λ o e. ground arith))
  | inr b ↦
      let (d, e, (l, t)) = free_slot-MayTake (suc i) os in (suc d, ground arith, (omega arith, t))
]

is_free-MayTake : (os : List OpenFile) (i : ℕ) → is_free os i ≡ true → MayTake os i
is_free-MayTake [] i h = ground arith
is_free-MayTake (o ∷ os) zero h = (omega arith, λ p e. ground arith)
is_free-MayTake (o ∷ os) (suc i) h = let (l, t) = is_free-MayTake os i h in (omega arith, t)

pick_slot-MayTake : (idx : ℕ) (os : List OpenFile) → MayTake os (pick_slot idx os)
unfolding pick_slot
pick_slot-MayTake idx os = elim (Bool-cases (not (idx == minus_one) && is_free os idx)) [
  | inl b ↦ subst (MayTake os) (ground arith) (is_free-MayTake os idx (ground arith))
  | inr b ↦ let (d, e, m) = free_slot-MayTake 0 os in subst (MayTake os) (ground arith) m
]

put_file_self :
    (i : ℕ) (o : OpenFile) (os : List OpenFile)
    → i ≤ length os
    → get_elem? (put_file i o os) i ≡ some o
unfolding put_file
put_file_self i o os h = elim (Bool-cases (ltb i (length os))) [
  | inl b ↦ ground (arith, get_elem?-set_self os i o)
  | inr b ↦
      let q : length os ≡ i = ground arith in
      let e : put_file i o os ≡ os ++ o ∷ [] = ground arith in
      ap (λ l. get_elem? l i) e
      ∙ subst (λ k. get_elem? (os ++ o ∷ []) k ≡ some o) q (get_elem?-append_end os o)
]

put_file_other :
    (i j : ℕ) (o p : OpenFile) (os : List OpenFile)
    → j ≢ i
    → get_elem? os j ≡ some p
    → get_elem? (put_file i o os) j ≡ some p
unfolding put_file
put_file_other i j o p os h e = elim (Bool-cases (ltb i (length os))) [
  | inl b ↦ ground (arith, get_elem?-set_ne os {i = i} {j = j} o (λ q. h (sym q)))
  | inr b ↦ ground (arith, get_elem?-append_left os (o ∷ []) j (get_elem?-length os j p e))
]

-- The descriptor `i` of an opened file afterwards, and the entry `f` of the file.
pub record Opened (tc fid mode offs i : ℕ) (s s' : Contexts) : Type 0 where
  pub file : file_of tc i s' ≡ some (record { fid = fid; mode = mode; offs = offs; unionidx = 0 })
  pub valid : taskctx_validfid tc i s' ≡ true
  pub was_free : (o : OpenFile) → file_of tc i s ≡ some o → o.fid ≡ minus_one
  pub others : (j : ℕ) (o : OpenFile) → j ≢ i → file_of tc j s ≡ some o → file_of tc j s' ≡ some o

validfid_of :
    (tc i : ℕ) (o : OpenFile) (s : Contexts)
    → file_of tc i s ≡ some o
    → o.fid ≢ minus_one
    → is_used o.fid s ≡ true
    → taskctx_validfid tc i s ≡ true
unfolding taskctx_validfid
validfid_of tc i o s e n u = ground arith

-- An entry that is replaced by one with a path is in use.
is_used-set :
    (fs : List Fcb) (i : ℕ) (f : Fcb) (p : List ℕ)
    → i < length fs
    → f.abspath ≡ some p
    → (elim (get_elem? (set fs i f) i) [
      | none ↦ false
      | some g ↦ elim g.abspath [ none ↦ false | some q ↦ true ]
    ])
      ≡ true
is_used-set fs i f p h e = ground (arith, get_elem?-set_self fs i f h)

module _ (tc fid mode offs i : ℕ) (f : Fcb) (s : Contexts) (u : used_fcb fid s ≡ some f)
    (n : fid ≢ minus_one) (z : tc ≢ 0) where
  used_entry : (get_elem? s.fs.fcbs.fcb fid ≡ some f) × ((p : List ℕ) × (f.abspath ≡ some p))
  unfolding is_used
  used_entry = elim (Option-cases (get_elem? s.fs.fcbs.fcb fid)) [
    | inl e ↦ absurd (ground arith)
    | inr (g, e) ↦ elim (Option-cases g.abspath) [
      | inl q ↦ absurd (ground arith)
      | inr (p, q) ↦ (ground arith, (p, ground arith))
    ]
  ]

  -- The entry stays in use.
  open_at_used : is_used fid (open_at tc fid mode offs i f s).1 ≡ true
  unfolding open_at is_used
  open_at_used =
      let (e, (p, q)) = used_entry in
      let f₁ : Fcb = if has mode o_excl || has f.mode o_excl then with_excl f else f in
      let q' : f₁.abspath ≡ some p = ground arith in
      is_used-set s.fs.fcbs.fcb fid (record f₁ { nopen = suc f.nopen }) p
        (get_elem?-length s.fs.fcbs.fcb fid f e) q'

  open_at_file :
      i ≤ length (s.ctx tc).openfiles
      → file_of tc i (open_at tc fid mode offs i f s).1
        ≡ some (record { fid = fid; mode = mode; offs = offs; unionidx = 0 })
  unfolding open_at
  open_at_file l =
      let o : OpenFile = record { fid = fid; mode = mode; offs = offs; unionidx = 0 } in
      ground (arith, put_file_self i o (s.ctx tc).openfiles l)

  open_at-Opened :
      MayTake (s.ctx tc).openfiles i
      → Opened tc fid mode offs i s (open_at tc fid mode offs i f s).1
  unfolding open_at
  open_at-Opened (l, t) =
      let o : OpenFile = record { fid = fid; mode = mode; offs = offs; unionidx = 0 } in
      let os = (s.ctx tc).openfiles in
      record {
        file = open_at_file l;
        valid =
            validfid_of tc i o (open_at tc fid mode offs i f s).1 (open_at_file l) n open_at_used;
        was_free = λ x w. t x (ground arith);
        others = λ j x d w. ground (arith, put_file_other i j o x os d (ground arith));
      }

-- A call of `taskctx_open` on an entry in use that is not held exclusively, with a permitted mode,
-- takes a free descriptor or a new one for the file, with the mode that the flags imply; the
-- descriptor is valid, and all others of the context stay.
pub taskctx_open-Opened :
    (tc fid mode offs idx : ℕ) (f : Fcb) (s : Contexts)
    → tc ≢ 0
    → fid ≢ minus_one
    → used_fcb fid s ≡ some f
    → is_excl f ≡ false
    → is_permitted (read_mode mode) f ≡ true
    → let (i, s') = taskctx_open tc fid mode offs idx s in
      Opened tc fid (open_mode (read_mode mode)) offs i s s'
unfolding taskctx_open open_checked open_at
taskctx_open-Opened tc fid mode offs idx f s z n u x p =
    let m = open_mode (read_mode mode) in
    let i = pick_slot idx (s.ctx tc).openfiles in
    let e : taskctx_open tc fid mode offs idx s ≡ open_at tc fid m offs i f s = ground arith in
    subst (λ r. Opened tc fid m offs r.0 s r.1) (sym e)
      (open_at-Opened tc fid m offs i f s u n z (pick_slot-MayTake idx (s.ctx tc).openfiles))

excl_table :
    (tc fid mode offs i : ℕ) (f : Fcb) (s : Contexts)
    → has mode o_excl ≡ true
    → (open_at tc fid mode offs i f s).1.fs.fcbs.fcb
      ≡ set s.fs.fcbs.fcb fid (record (with_excl f) { nopen = suc f.nopen })
unfolding open_at
excl_table tc fid mode offs i f s x = ground arith

-- The entry of a file that is opened exclusively.
excl_entry :
    (tc fid mode offs i : ℕ) (f : Fcb) (s : Contexts)
    → used_fcb fid s ≡ some f
    → fid ≢ minus_one
    → tc ≢ 0
    → has mode o_excl ≡ true
    → used_fcb fid (open_at tc fid mode offs i f s).1
      ≡ some (record (with_excl f) { nopen = suc f.nopen })
excl_entry tc fid mode offs i f s u n z x =
    let s' = (open_at tc fid mode offs i f s).1 in
    let (e, p) = used_entry tc fid mode offs i f s u n z in
    let a : s'.fs.fcbs.fcb ≡ set s.fs.fcbs.fcb fid (record (with_excl f) { nopen = suc f.nopen }) =
      excl_table tc fid mode offs i f s x in
    ground (
      arith,
      open_at_used tc fid mode offs i f s u n z,
      ap (λ l. get_elem? l fid) a,
      get_elem?-set_self s.fs.fcbs.fcb fid (record (with_excl f) { nopen = suc f.nopen })
          (get_elem?-length s.fs.fcbs.fcb fid f e),
    )

-- After a file was opened exclusively, with the conditions under which opening succeeds, every other
-- call of `taskctx_open` for it, by any task with a context, is refused with `EBUSY`.
pub taskctx_open_excl :
    (tc fid mode offs idx : ℕ) (f : Fcb) (s : Contexts) (tc' mode' offs' idx' : ℕ)
    → tc ≢ 0
    → fid ≢ minus_one
    → used_fcb fid s ≡ some f
    → is_excl f ≡ false
    → is_permitted (read_mode mode) f ≡ true
    → has (open_mode (read_mode mode)) o_excl ≡ true
    → tc' ≢ 0
    → let (i, s') = taskctx_open tc fid mode offs idx s in
      taskctx_open tc' fid mode' offs' idx' s' ≡ (minus_one, seterr ebusy s')
unfolding taskctx_open open_checked
taskctx_open_excl tc fid mode offs idx f s tc' mode' offs' idx' z n u x p h z' =
    let m = open_mode (read_mode mode) in
    let i = pick_slot idx (s.ctx tc).openfiles in
    let e : taskctx_open tc fid mode offs idx s ≡ open_at tc fid m offs i f s = ground arith in
    subst
      (λ (r : ℕ × Contexts).
        taskctx_open tc' fid mode' offs' idx' r.1 ≡ (minus_one, seterr ebusy r.1))
      (sym e) (ground (arith, excl_entry tc fid m offs i f s u n z h))
