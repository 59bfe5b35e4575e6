-- ===== src/Buffers/Inside.antt =====
-- Writes inside a buffer, and the flush of one whole buffer.
use osz.Base.{
  ℕ, ◌+◌, ◌-◌, ◌^◌, ◌≤◌, ◌<◌, ◌≡◌, refl, ap, ◌∙◌, true, ◌&&◌, none, some, List, [], ◌∷◌, ◌++◌,
  length, get_elem?, take, drop, length-append, length-take, length-drop, get_elem?-take,
  get_elem?-drop, get_elem?-append_left, get_elem?-append_right, leb, Bool-cases, inl, inr, ◌⊎◌,
  add64, arith,
}
use osz.Fcb.{Fcb, WriteBuf}
use osz.Fs.{Fs, set_fcb}
use osz.Buffers.{end_of, overwrite, drop_covered, insert_buf, store_bytes, write_error, fcb_write}

-- The element `k` behind a part of `n` elements.
get_elem?-append_at :
    (xs ys : List ℕ) (n k i : ℕ)
    → length xs ≡ n
    → i ≡ n + k
    → get_elem? (xs ++ ys) i ≡ get_elem? ys k
get_elem?-append_at xs ys n k i e q =
    ap (get_elem? (xs ++ ys)) {x = i} {y = length xs + k} (omega arith)
    ∙ get_elem?-append_right xs ys k

module _ (w : WriteBuf) (offs : ℕ) (buf : List ℕ) (l : w.offs ≤ offs)
    (r : offs + length buf ≤ w.offs + length w.bytes) where
  -- The parts of the buffer afterwards.
  length-overwrite : length (overwrite w offs buf).bytes ≡ length w.bytes
  length-overwrite =
      let d = offs - w.offs in
      omega (
        arith,
        length-append (take d w.bytes) (buf ++ drop (d + length buf) w.bytes),
        length-append buf (drop (d + length buf) w.bytes),
        length-take d w.bytes (omega arith),
        length-drop (d + length buf) w.bytes,
      )

  overwrite_new :
      (k : ℕ)
      → k < length buf
      → get_elem? (overwrite w offs buf).bytes (offs - w.offs + k) ≡ get_elem? buf k
  overwrite_new k h =
      let d = offs - w.offs in
      let behind = drop (d + length buf) w.bytes in
      get_elem?-append_at (take d w.bytes) (buf ++ behind) d k (d + k)
        (length-take d w.bytes (omega arith)) refl
      ∙ get_elem?-append_left buf behind k h

  overwrite_old :
      (k : ℕ)
      → (k < offs - w.offs) ⊎ (offs - w.offs + length buf ≤ k)
      → get_elem? (overwrite w offs buf).bytes k ≡ get_elem? w.bytes k
  overwrite_old k (inl h) =
      let d = offs - w.offs in
      get_elem?-append_left (take d w.bytes) (buf ++ drop (d + length buf) w.bytes) k
        (omega (arith, length-take d w.bytes (omega arith)))
      ∙ get_elem?-take d k w.bytes h
  overwrite_old k (inr h) =
      let d = offs - w.offs in
      let n = d + length buf in
      get_elem?-append_at (take d w.bytes) (buf ++ drop n w.bytes) d (k - d) k
        (length-take d w.bytes (omega arith)) (omega arith)
      ∙ get_elem?-append_at buf (drop n w.bytes) (length buf) (k - n) (k - d) refl (omega arith)
      ∙ get_elem?-drop n (k - n) w.bytes
      ∙ ap (get_elem? w.bytes) {x = n + (k - n)} {y = k} (omega arith)

-- Behind another buffer every covered one can be removed.
drop_covered-some :
    (offs e : ℕ) (ws : List WriteBuf)
    → (ws' : List WriteBuf) × (drop_covered offs e true ws ≡ some ws')
unfolding drop_covered
drop_covered-some offs e [] = ([], refl)
drop_covered-some offs e (w ∷ ws) =
    let (ws', q) = drop_covered-some offs e ws in
    elim (Bool-cases (leb offs w.offs && leb (end_of w) e)) [
      | inl b ↦ (ws', ground arith)
      | inr b ↦ (w ∷ ws', ground arith)
    ]

-- What a write inside the first buffer of a file leaves: of this buffer the bytes written, at their
-- offsets, and all others as they were.
pub record Stored (w : WriteBuf) (offs : ℕ) (buf : List ℕ) (w' : WriteBuf) : Type 0 where
  pub offs_same : w'.offs ≡ w.offs
  pub size_same : length w'.bytes ≡ length w.bytes
  pub new : (k : ℕ) → k < length buf → get_elem? w'.bytes (offs - w.offs + k) ≡ get_elem? buf k
  pub old :
      (k : ℕ)
      → (k < offs - w.offs) ⊎ (offs - w.offs + length buf ≤ k)
      → get_elem? w'.bytes k ≡ get_elem? w.bytes k

store_bytes-inside :
    (idx offs : ℕ) (buf : List ℕ) (f : Fcb) (s : Fs) (w : WriteBuf) (ws ws' : List WriteBuf)
    → f.buf ≡ w ∷ ws
    → drop_covered offs (offs + length buf) true ws ≡ some ws'
    → w.offs ≤ offs
    → offs + length buf ≤ w.offs + length w.bytes
    → length buf < length w.bytes
    → w.offs + length w.bytes < 2 ^ 64
    → store_bytes idx offs buf f s
      ≡ some (true, set_fcb idx (record f { buf = overwrite w offs buf ∷ ws' }) s)
unfolding store_bytes drop_covered insert_buf
store_bytes-inside idx offs buf f s w ws ws' b d l r n h =
    let e : add64 offs (length buf) ≡ offs + length buf = omega arith in
    let e' : end_of w ≡ w.offs + length w.bytes = omega arith in ground arith

-- A write by `fcb_write` that lies inside the first write buffer of an open file, and does not fill
-- it, succeeds: the bytes are stored in this buffer at their offsets, and all its other bytes stay.
pub fcb_write-Stored :
    (idx offs : ℕ) (buf : List ℕ) (s : Fs) (f : Fcb) (w : WriteBuf) (ws : List WriteBuf)
    → get_elem? s.fcbs.fcb idx ≡ some f
    → write_error f s ≡ none
    → f.buf ≡ w ∷ ws
    → w.offs ≤ offs
    → offs + length buf ≤ w.offs + length w.bytes
    → length buf < length w.bytes
    → w.offs + length w.bytes < 2 ^ 63
    → (w' : WriteBuf) × ((ws' : List WriteBuf) × (fcb_write idx offs buf s
          ≡ some (true, set_fcb idx (record f { buf = w' ∷ ws' }) s))
        × Stored w offs buf w')
unfolding fcb_write
fcb_write-Stored idx offs buf s f w ws e k b l r n h =
    let (ws', d) = drop_covered-some offs (offs + length buf) ws in
    (
      overwrite w offs buf,
      (
        ws',
        ground (arith, store_bytes-inside idx offs buf f s w ws ws' b d l r n (omega arith)),
        record {
          offs_same = refl;
          size_same = length-overwrite w offs buf l r;
          new = overwrite_new w offs buf l r;
          old = overwrite_old w offs buf l r;
        },
      ),
    )
