-- ===== src/Contexts/Seek.antt =====
-- Where `taskctx_seek` leaves the position of a file.
use osz.Base.Errno.{einval}
use osz.Base.{
  ℕ, ◌-◌, ◌^◌, ◌<◌, ◌≤◌, ◌≡◌, ◌≢◌, sym, ap, ◌∙◌, Bool, some, get_elem?, get_elem?-set_self,
  get_elem?-set_ne, get_elem?-length, Bool-cases, ◌⊎◌, inl, inr, Option-cases, leb, ltb, ◌==◌,
  if◌then◌else◌, arith,
}
use osz.Fcb.{Fcb}
use osz.Contexts.{OpenFile, Contexts}
use osz.Contexts.Descriptors.{file_of, taskctx_validfid, valid_file, seek_to, move_to, taskctx_seek}

-- A valid descriptor is one of the array.
valid_file-file_of :
    (tc idx : ℕ) (s : Contexts) (o : OpenFile) (f : Fcb)
    → valid_file tc idx s ≡ some (o, f)
    → file_of tc idx s ≡ some o
unfolding valid_file
valid_file-file_of tc idx s o f e = elim (Bool-cases (taskctx_validfid tc idx s)) [
  | inl b ↦ elim (Option-cases (file_of tc idx s)) [
    | inl n ↦ absurd (ground arith)
    | inr (p, q) ↦ elim (Option-cases (get_elem? s.fs.fcbs.fcb p.fid)) [
      | inl n ↦ absurd (ground arith)
      | inr (g, r) ↦ ground arith
    ]
  ]
  | inr b ↦ absurd (ground arith)
]

move_to_file :
    (tc idx p : ℕ) (s : Contexts) (o : OpenFile)
    → file_of tc idx s ≡ some o
    → file_of tc idx (move_to tc idx o p s) ≡ some (record o { offs = p })
move_to_file tc idx p s o e =
    let os = (s.ctx tc).openfiles in
    let g : get_elem? os idx ≡ some o = ground arith in
    ground (arith, get_elem?-set_self os idx (record o { offs = p }) (get_elem?-length os idx o g))

move_to_other :
    (tc idx j p : ℕ) (s : Contexts) (o : OpenFile)
    → j ≢ idx
    → file_of tc j (move_to tc idx o p s) ≡ file_of tc j s
move_to_other tc idx j p s o d = ground (
  arith,
  get_elem?-set_ne (s.ctx tc).openfiles {i = idx} {j = j} (record o { offs = p }) (λ q. d (sym q)),
)

-- The position `p` that a seek is for, as a 64 bit word: below 2 ^ 63 it is taken, else it stands
-- for a negative number and the position becomes 0.
pub record Sought (tc idx p : ℕ) (o : OpenFile) (s : Contexts) (r : Bool × Contexts) : Type 0 where
  pub done : r.0 ≡ ltb p (2 ^ 63)
  pub position : file_of tc idx r.1 ≡ some (record o { offs = if ltb p (2 ^ 63) then p else 0 })
  pub others : (j : ℕ) → j ≢ idx → file_of tc j r.1 ≡ file_of tc j s
  pub error : r.1.fs ≡ (if ltb p (2 ^ 63) then s.fs else record s.fs { errno = einval })

sought_lem :
    (tc idx offs whence : ℕ) (s : Contexts) (o : OpenFile) (f : Fcb)
    → valid_file tc idx s ≡ some (o, f)
    → f.type ≡ 0
    → Sought tc idx (seek_to o f offs whence) o s (taskctx_seek tc idx offs whence s)
unfolding taskctx_seek
sought_lem tc idx offs whence s o f v t =
    let p = seek_to o f offs whence in
    let e = valid_file-file_of tc idx s o f v in
    elim (Bool-cases (ltb p (2 ^ 63))) [
      | inl b ↦ record {
        done = ground arith;
        position = ground (arith, move_to_file tc idx p s o e);
        others = λ j d. ground (arith, move_to_other tc idx j p s o d);
        error = ground arith;
      }
      | inr b ↦ record {
        done = ground arith;
        position = ground (arith, move_to_file tc idx 0 s o e);
        others = λ j d. ground (arith, move_to_other tc idx j 0 s o d);
        error = ground arith;
      }
    ]

-- The position that `taskctx_seek` is asked for on the descriptor of a file, where the position and
-- the size of the file are below 2 ^ 63: a step back by `k` of at most 2 ^ 63 bytes from the present
-- position, or from the end of the file, succeeds exactly if there are so many bytes before it, and
-- else leaves the position 0 and the error `EINVAL`; no other descriptor of the context moves.
pub taskctx_seek_back :
    (tc idx k whence : ℕ) (s : Contexts) (o : OpenFile) (f : Fcb)
    → valid_file tc idx s ≡ some (o, f)
    → f.type ≡ 0
    → 0 < k
    → k ≤ 2 ^ 63
    → o.offs < 2 ^ 63
    → f.filesize < 2 ^ 63
    → (whence ≡ 1) ⊎ (whence ≡ 2)
    → let from = if whence == 1 then o.offs else f.filesize in
      let r = taskctx_seek tc idx (2 ^ 64 - k) whence s in
      (r.0 ≡ leb k from)
      × (file_of tc idx r.1 ≡ some (record o { offs = from - k }))
      × ((j : ℕ) → j ≢ idx → file_of tc j r.1 ≡ file_of tc j s)
      × (r.1.fs ≡ (if leb k from then s.fs else record s.fs { errno = einval }))
unfolding seek_to
taskctx_seek_back tc idx k whence s o f v t l u a b w =
    let q = sought_lem tc idx (2 ^ 64 - k) whence s o f v t in
    let from : ℕ = if whence == 1 then o.offs else f.filesize in
    let p = seek_to o f (2 ^ 64 - k) whence in
    let small : ltb p (2 ^ 63) ≡ leb k from = ground arith in
    let pos : (if ltb p (2 ^ 63) then p else 0) ≡ from - k = ground arith in
    (
      q.done ∙ small,
      q.position ∙ ap (λ x. some (record o { offs = x })) pos,
      q.others,
      q.error ∙ ap (λ x. if x then s.fs else record s.fs { errno = einval }) small,
    )
