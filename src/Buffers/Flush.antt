-- ===== src/Buffers/Flush.antt =====
-- The flush of a file with one write buffer, `fcb_flush` of src/fs/fcb.c, whether or not the buffer is of
-- whole blocks.
use mathlib.Core.Path.{subst}
use native.Mathlib.Nat.{mod-lt, div-add-mod, mod_self, mul-add-mod_self_left}
use osz.Base.{
  ℕ, ◌+◌, ◌-◌, ◌*◌, ◌/◌, ◌%◌, ◌^◌, ◌≤◌, ◌<◌, ◌≡◌, ◌≢◌, refl, sym, ap, ◌∙◌, inl, inr, Bool, true,
  false, ◌||◌, Option, Option-cases, none, some, List, [], ◌∷◌, ◌++◌, length, take, drop, get_elem?,
  get_elem?-set_self, get_elem?-length, length-append, length-take, length-drop, ltb, leb, ◌==◌,
  if◌then◌else◌, Bool-cases, arith,
}
use osz.Fcb.{Fcb, WriteBuf}
use osz.Fs.{
  Driver, Answer, Call, Fs, minus_one, set_fcb, driver_read, driver_write, has_writetrb,
  has_writetre, called,
}
use osz.Buffers.{
  write_error, ask_block, align_start, align_end, flush_start, flush_end, flush_write, flush_loop,
  flush_done, flush_from, fcb_flush,
}

-- The buffer `w'` holds the bytes of `w` at their offset.
pub record Covers (w w' : WriteBuf) : Type 0 where
  pub before : List ℕ
  pub after : List ℕ
  pub bytes : w'.bytes ≡ before ++ (w.bytes ++ after)
  pub offs : w'.offs + length before ≡ w.offs

-- It is of whole blocks besides.
pub record Aligned (bs : ℕ) (w w' : WriteBuf) : Type 0 where
  pub covers : Covers w w'
  pub starts : w'.offs % bs ≡ 0
  pub whole : length w'.bytes % bs ≡ 0

append_nil : (xs : List ℕ) → xs ++ [] ≡ xs
append_nil [] = refl
append_nil (x ∷ xs) = ap (λ (ys : List ℕ). x ∷ ys) (append_nil xs)

append_assoc : (xs ys zs : List ℕ) → (xs ++ ys) ++ zs ≡ xs ++ (ys ++ zs)
append_assoc [] ys zs = refl
append_assoc (x ∷ xs) ys zs = ap (λ (us : List ℕ). x ∷ us) (append_assoc xs ys zs)

Covers-self : (w : WriteBuf) → Covers w w
Covers-self w = record {
  before = [];
  after = [];
  bytes = sym (append_nil w.bytes);
  offs = omega arith;
}

mod_floor : (m n : ℕ) → (m - m % n) % n ≡ 0
mod_floor m n =
    let e : m - m % n ≡ n * (m / n) + 0 = omega (arith, div-add-mod m n) in
    ap (λ k. k % n) e ∙ mul-add-mod_self_left n (m / n) 0 ∙ omega arith

mod_ceil : (m n : ℕ) → n ≢ 0 → (m + (n - m % n)) % n ≡ 0
mod_ceil m n h =
    let l : m % n < n = mod-lt m (omega arith) in
    let e : m + (n - m % n) ≡ n * (m / n) + n = omega (arith, div-add-mod m n) in
    ap (λ k. k % n) e ∙ mul-add-mod_self_left n (m / n) n ∙ mod_self n

-- What the reads of a flush leave as it was.
record Same (s s' : Fs) : Type 0 where
  fcbs : s'.fcbs ≡ s.fcbs
  calls : s'.calls ≡ s.calls
  fsdrv : s'.fsdrv ≡ s.fsdrv

-- A block of `bs` bytes that the driver is asked for has at least so many, when it gives one.
abbrev pub WholeBlocks : (bs fs : ℕ) → Fs → Type 0
WholeBlocks bs fs s =
    (read : ℕ → ℕ → ℕ → ℕ → Answer)
    → driver_read fs s ≡ some read
    → (storage inode offs : ℕ) (b : List ℕ) → (read storage inode offs bs).blk ≡ some b
    → bs ≤ length b

-- What `ask_block` gives.
record Asked (bs : ℕ) (s : Fs) (r : Bool × Option (List ℕ) × Fs) : Type 0 where
  same : Same s r.2
  long : (b : List ℕ) → r.1 ≡ some b → bs ≤ length b

ask_block-Asked :
    (storage inode offs bs fs : ℕ) (s : Fs)
    → WholeBlocks bs fs s
    → Asked bs s (ask_block storage inode offs bs fs s)
unfolding ask_block
ask_block-Asked storage inode offs bs fs s h = elim (Option-cases (driver_read fs s)) [
  | inl e ↦
      rw (ask_block, e)
        (record {
          same = record { fcbs = refl; calls = refl; fsdrv = refl };
          long = λ b q. ground arith;
        })
  | inr (read, e) ↦
      rw (ask_block, e)
        (record {
          same = record { fcbs = refl; calls = refl; fsdrv = refl };
          long = λ b q. h read e storage inode offs b q;
        })
]

-- What one half of the loop's body does: it stops, and the bytes stay in the buffer; or it goes on
-- with the bytes in a buffer that `Ready` says more about.
abbrev StepOutcome :
    (Broken : Type 0) (Ready : WriteBuf → Type 0) (w : WriteBuf) (s : Fs)
    → Option (Bool × WriteBuf × Fs)
    → Type 0
StepOutcome Broken Ready w s none = Broken
StepOutcome Broken Ready w s (some (true, w', s')) = Covers w w' × Same s s'
StepOutcome Broken Ready w s (some (false, w', s')) = Covers w w' × Same s s' × Ready w'

-- The source copies a whole block into a buffer that ends before it.
abbrev pub IsShort : (bs : ℕ) → WriteBuf → Type 0
IsShort bs w = (w.offs % bs ≢ 0) × (length w.bytes + w.offs % bs < bs)

lengthened :
    (before : List ℕ) (w : WriteBuf) (a : ℕ)
    → length before ≡ a
    → a ≤ w.offs
    → Covers w (record { offs = w.offs - a; bytes = before ++ w.bytes })
lengthened before w a l h = record {
  before = before;
  after = [];
  bytes = ap (λ (xs : List ℕ). before ++ xs) (sym (append_nil w.bytes));
  offs = omega arith;
}

module _ (fresh : ℕ → List ℕ) (given : (n : ℕ) → length (fresh n) ≡ n) (bs : ℕ) (f : Fcb)
    (pos : bs ≢ 0) where
  flush_start-Outcome :
      (w : WriteBuf) (s : Fs)
      → WholeBlocks bs f.fs s
      → StepOutcome (IsShort bs w) (λ w'. w'.offs % bs ≡ 0) w s (flush_start fresh bs f w s)
  unfolding flush_start align_start
  flush_start-Outcome w s h =
      let a = w.offs % bs in
      let l : a < bs = mod-lt w.offs (omega arith) in
      let m : a ≤ w.offs = omega (arith, div-add-mod w.offs bs) in
      let r = ask_block f.storage f.inode w.offs bs f.fs s in
      let k = ask_block-Asked f.storage f.inode w.offs bs f.fs s h in
      elim (Bool-cases (a == 0)) [
        | inl e ↦
            rw e (Covers-self w, record { fcbs = refl; calls = refl; fsdrv = refl }, ground arith)
        | inr e ↦ rw e (elim (Bool-cases r.0) [
          | inl t ↦ rw t (Covers-self w, k.same)
          | inr t ↦ rw t (elim (Option-cases r.1) [
            | inl q ↦ rw q (
              lengthened (take a (fresh (length w.bytes + a))) w a
                  (length-take a (fresh (length w.bytes + a))
                    (omega (arith, given (length w.bytes + a))))
                  m,
              k.same,
              mod_floor w.offs bs,
            )
            | inr (b, q) ↦
                rw q (elim (Bool-cases (ltb (length w.bytes + a) bs || ltb (length b) bs)) [
                  | inl z ↦ rw z (ground arith, ground (arith, k.long b q))
                  | inr z ↦ rw z (
                    lengthened (take a b) w a (length-take a b (omega (arith, k.long b q))) m,
                    k.same,
                    mod_floor w.offs bs,
                  )
                ])
          ])
        ])
      ]

  flush_end-Outcome :
      (w : WriteBuf) (s : Fs)
      → WholeBlocks bs f.fs s
      → StepOutcome ⊥
          (λ w'. (w'.offs ≡ w.offs) × (length w'.bytes % bs ≡ 0))
          w
          s
          (flush_end fresh bs f w s)
  unfolding flush_end align_end
  flush_end-Outcome w s h =
      let a = length w.bytes % bs in
      let l : a < bs = mod-lt (length w.bytes) (omega arith) in
      let offs = w.offs + length w.bytes - a in
      let r = ask_block f.storage f.inode offs bs f.fs s in
      let k = ask_block-Asked f.storage f.inode offs bs f.fs s h in
      elim (Bool-cases (a == 0)) [
        | inl e ↦ rw e (
          Covers-self w,
          record { fcbs = refl; calls = refl; fsdrv = refl },
          (refl, ground arith),
        )
        | inr e ↦ rw e (elim (Bool-cases r.0) [
          | inl t ↦ rw t (Covers-self w, k.same)
          | inr t ↦ rw t (elim (Option-cases r.1) [
            | inl q ↦
                let after = take (bs - a) (fresh (bs - a)) in
                let n = length-take (bs - a) (fresh (bs - a)) (omega (arith, given (bs - a))) in
                rw q (filled w after, k.same, (refl, filled_whole w after n))
            | inr (b, q) ↦
                let after = take (bs - a) (drop a b) in
                let n =
                  length-take (bs - a) (drop a b) (omega (arith, length-drop a b, k.long b q)) in
                rw q (elim (Bool-cases (ltb (length b) bs)) [
                  | inl z ↦ absurd (ground (arith, k.long b q))
                  | inr z ↦ rw z (filled w after, k.same, (refl, filled_whole w after n))
                ])
          ])
        ])
      ]
    where
      filled : (w : WriteBuf) (after : List ℕ) → Covers w (record w { bytes = w.bytes ++ after })
      filled w after = record { before = []; after = after; bytes = refl; offs = omega arith }

      filled_whole :
          (w : WriteBuf) (after : List ℕ)
          → length after ≡ bs - length w.bytes % bs
          → length (w.bytes ++ after) % bs ≡ 0
      filled_whole w after n =
          ap (λ k. k % bs) (length-append w.bytes after ∙ ap (λ k. length w.bytes + k) n)
          ∙ mod_ceil (length w.bytes) bs pos

  Covers-trans : (w w₁ w₂ : WriteBuf) → Covers w w₁ → Covers w₁ w₂ → Covers w w₂
  Covers-trans w w₁ w₂ c d = record {
    before = d.before ++ c.before;
    after = c.after ++ d.after;
    bytes =
        d.bytes
        ∙ ap (λ (xs : List ℕ). d.before ++ (xs ++ d.after)) c.bytes
        ∙ ap (λ (xs : List ℕ). d.before ++ xs)
            (append_assoc c.before (w.bytes ++ c.after) d.after
              ∙ ap (λ (xs : List ℕ). c.before ++ xs) (append_assoc w.bytes c.after d.after))
        ∙ sym (append_assoc d.before c.before (w.bytes ++ (c.after ++ d.after)));
    offs = omega (arith, c.offs, d.offs, length-append d.before c.before);
  }

-- Some buffer of the file at `idx` still holds the bytes of `w`.
abbrev pub Kept : ℕ → WriteBuf → Fs → Type 0
Kept idx w s =
    (f : Fcb) × (w' : WriteBuf) × (get_elem? s.fcbs.fcb idx ≡ some f)
    × (f.buf ≡ w' ∷ [])
    × Covers w w'

-- The file at `idx` has no buffer.
abbrev pub Emptied : ℕ → Fs → Type 0
Emptied idx s = (f : Fcb) × (get_elem? s.fcbs.fcb idx ≡ some f) × (f.buf ≡ [])

abbrev LoopOutcome : (idx bs : ℕ) → Fcb → WriteBuf → Fs → Option (Bool × Fs) → Type 0
LoopOutcome idx bs f w s none = IsShort bs w
LoopOutcome idx bs f w s (some (false, s')) = Kept idx w s'
LoopOutcome idx bs f w s (some (true, s')) =
    (w' : WriteBuf) × Aligned bs w w'
    × Emptied idx s'
    × (s'.calls ≡ Call.write_to f.storage f.inode w'.offs w'.bytes ∷ s.calls)
    × (s'.fsdrv ≡ s.fsdrv)

module _ (idx : ℕ) (f : Fcb) (w : WriteBuf) (s : Fs)
    (at : (get_elem? s.fcbs.fcb idx ≡ some f)) where
  stored :
      (bufs : List WriteBuf) (s' : Fs)
      → s'.fcbs ≡ s.fcbs
      → get_elem? (set_fcb idx (record f { buf = bufs }) s').fcbs.fcb idx
        ≡ some (record f { buf = bufs })
  stored bufs s' e =
      get_elem?-set_self s'.fcbs.fcb idx (record f { buf = bufs })
        (get_elem?-length s'.fcbs.fcb idx f (ap (λ t. get_elem? t.fcb idx) e ∙ at))

  flush_write-Outcome :
      (fresh : ℕ → List ℕ) (bs : ℕ) (w' : WriteBuf) (s' : Fs) (write : ℕ → ℕ → ℕ → List ℕ → Bool)
      → driver_write f.fs s ≡ some write
      → Aligned bs w w'
      → Same s s'
      → LoopOutcome idx bs f w s (flush_write fresh idx f w' [] s')
  unfolding flush_write
  flush_write-Outcome fresh bs w' s' write e c k =
      let e' : driver_write f.fs s' ≡ some write =
        ap (λ (ds : List Driver). driver_write f.fs (record s { fsdrv = ds })) k.fsdrv ∙ e in
      rw (flush_write, e')
        (elim (Bool-cases (write f.storage f.inode w'.offs w'.bytes)) [
          | inl b ↦ rw b (
            w',
            c,
            (record f { buf = [] }, stored [] s' k.fcbs, refl),
            ap (λ xs. Call.write_to f.storage f.inode w'.offs w'.bytes ∷ xs) k.calls,
            k.fsdrv,
          )
          | inr b ↦
              rw b (record f { buf = w' ∷ [] }, w', stored (w' ∷ []) s' k.fcbs, refl, c.covers)
        ])

  flush_loop-Outcome :
      (fresh : ℕ → List ℕ) (bs : ℕ) (write : ℕ → ℕ → ℕ → List ℕ → Bool)
      → ((n : ℕ) → length (fresh n) ≡ n)
      → bs ≢ 0
      → WholeBlocks bs f.fs s
      → driver_write f.fs s ≡ some write
      → LoopOutcome idx bs f w s (flush_loop fresh idx bs f (w ∷ []) s)
  unfolding flush_loop
  flush_loop-Outcome fresh bs write given pos h e =
      let z : (bs == 0) ≡ false = ground arith in
      rw z (first (flush_start fresh bs f w s) (flush_start-Outcome fresh given bs f pos w s h))
    where
      second :
          (w₁ : WriteBuf) (s₁ : Fs)
          → Covers w w₁
          → Same s s₁
          → w₁.offs % bs ≡ 0
          → (r : Option (Bool × WriteBuf × Fs))
          → StepOutcome ⊥ (λ w'. (w'.offs ≡ w₁.offs) × (length w'.bytes % bs ≡ 0)) w₁ s₁ r
          → LoopOutcome idx bs f w s (elim r [
            | none ↦ none
            | some (true, w₂, s₂) ↦ some (false, set_fcb idx (record f { buf = w₂ ∷ [] }) s₂)
            | some (false, w₂, s₂) ↦ flush_write fresh idx f w₂ [] s₂
          ])
      second w₁ s₁ c k m none d = elim d [ ]
      second w₁ s₁ c k m (some (true, w₂, s₂)) (d, l) = (
        record f { buf = w₂ ∷ [] },
        w₂,
        stored (w₂ ∷ []) s₂ (l.fcbs ∙ k.fcbs),
        refl,
        Covers-trans fresh given bs f pos w w₁ w₂ c d,
      )
      second w₁ s₁ c k m (some (false, w₂, s₂)) (d, l, (o, n)) =
          flush_write-Outcome fresh bs w₂ s₂ write e
            (record {
              covers = Covers-trans fresh given bs f pos w w₁ w₂ c d;
              starts = ap (λ x. x % bs) o ∙ m;
              whole = n;
            })
            (record {
              fcbs = l.fcbs ∙ k.fcbs;
              calls = l.calls ∙ k.calls;
              fsdrv = l.fsdrv ∙ k.fsdrv;
            })

      first :
          (r : Option (Bool × WriteBuf × Fs))
          → StepOutcome (IsShort bs w) (λ w'. w'.offs % bs ≡ 0) w s r
          → LoopOutcome idx bs f w s (elim r [
            | none ↦ none
            | some (true, w₁, s₁) ↦ some (false, set_fcb idx (record f { buf = w₁ ∷ [] }) s₁)
            | some (false, w₁, s₁) ↦ elim (flush_end fresh bs f w₁ s₁) [
              | none ↦ none
              | some (true, w₂, s₂) ↦ some (false, set_fcb idx (record f { buf = w₂ ∷ [] }) s₂)
              | some (false, w₂, s₂) ↦ flush_write fresh idx f w₂ [] s₂
            ]
          ])
      first none d = d
      first (some (true, w₁, s₁)) (d, l) =
          (record f { buf = w₁ ∷ [] }, w₁, stored (w₁ ∷ []) s₁ l.fcbs, refl, d)
      first (some (false, w₁, s₁)) (d, l, m) = second w₁ s₁ d l m (flush_end fresh bs f w₁ s₁) (
          flush_end-Outcome fresh given bs f pos w₁ s₁ (λ read q. h read (
            ap (λ (ds : List Driver). driver_read f.fs (record s { fsdrv = ds })) (sym l.fsdrv)
            ∙ q)))

-- The calls of a transaction around others.
abbrev pub begun : Fcb → Fs → List Call
begun f s = if has_writetrb f.fs s then Call.writetrb f.storage f.inode ∷ s.calls else s.calls

abbrev pub ended : Fcb → Fs → List Call → List Call
ended f s calls = if has_writetre f.fs s then Call.writetre f.storage f.inode ∷ calls else calls

-- What a flush does with the bytes of the only buffer `w` of a file on a device of blocks of `bs` bytes.
abbrev pub FlushOutcome : (idx bs : ℕ) → Fcb → WriteBuf → Fs → Option (Bool × Fs) → Type 0
FlushOutcome idx bs f w s none = IsShort bs w
FlushOutcome idx bs f w s (some (false, s')) = Kept idx w s'
FlushOutcome idx bs f w s (some (true, s')) =
    (w' : WriteBuf) × Aligned bs w w'
    × Emptied idx s'
    × (s'.workleft ≡ minus_one)
    × (s'.calls
        ≡ ended f s (
            Call.write_to f.storage f.inode w'.offs w'.bytes
            ∷ (if s.workleft == minus_one then begun f s else s.calls)))

flush_done-Outcome :
    (fresh : ℕ → List ℕ) (idx bs : ℕ) (f : Fcb) (w : WriteBuf) (s s₀ : Fs)
    → s₀.fsdrv ≡ s.fsdrv
    → s₀.calls ≡ (if s.workleft == minus_one then begun f s else s.calls)
    → (r : Option (Bool × Fs)) → LoopOutcome idx bs f w s₀ r
    → FlushOutcome idx bs f w s (elim r [ none ↦ none | some r ↦ some (flush_done fresh f r) ])
unfolding flush_done
flush_done-Outcome fresh idx bs f w s s₀ e c none h = h
flush_done-Outcome fresh idx bs f w s s₀ e c (some (false, s')) h = h
flush_done-Outcome fresh idx bs f w s s₀ e c (some (true, s')) (w', a, m, k, l) =
    let t : has_writetre f.fs s' ≡ has_writetre f.fs s =
      ap (λ (ds : List Driver). has_writetre f.fs (record s { fsdrv = ds })) (l ∙ e) in
    let k' = k ∙ ap (λ xs. Call.write_to f.storage f.inode w'.offs w'.bytes ∷ xs) c in
    elim (Bool-cases (has_writetre f.fs s)) [
      | inl b ↦ rw (t, b) (w', a, m, refl, ap (λ xs. Call.writetre f.storage f.inode ∷ xs) k')
      | inr b ↦ rw (t, b) (w', a, m, refl, k')
    ]

flush_from-Outcome :
    (fresh : ℕ → List ℕ) (idx bs : ℕ) (s s₀ : Fs) (f : Fcb) (w : WriteBuf)
    (write : ℕ → ℕ → ℕ → List ℕ → Bool)
    → ((n : ℕ) → length (fresh n) ≡ n)
    → get_elem? s.fcbs.fcb idx ≡ some f
    → f.buf ≡ w ∷ []
    → bs ≢ 0
    → WholeBlocks bs f.fs s
    → driver_write f.fs s ≡ some write
    → s₀.fcbs ≡ s.fcbs
    → s₀.fsdrv ≡ s.fsdrv
    → s₀.calls ≡ (if s.workleft == minus_one then begun f s else s.calls)
    → FlushOutcome idx bs f w s (flush_from fresh idx bs f s₀)
unfolding flush_from
flush_from-Outcome fresh idx bs s s₀ f w write given at b pos h e fc fd c =
    let at' : get_elem? s₀.fcbs.fcb idx ≡ some f = ap (λ t. get_elem? t.fcb idx) fc ∙ at in
    let h' : WholeBlocks bs f.fs s₀ = λ read q.
      h read (ap (λ (ds : List Driver). driver_read f.fs (record s { fsdrv = ds })) (sym fd) ∙ q) in
    let e' : driver_write f.fs s₀ ≡ some write =
      ap (λ (ds : List Driver). driver_write f.fs (record s { fsdrv = ds })) fd ∙ e in
    flush_done-Outcome fresh idx bs f w s s₀ fd c (flush_loop fresh idx bs f f.buf s₀) (
      subst (λ ws. LoopOutcome idx bs f w s₀ (flush_loop fresh idx bs f ws s₀)) (sym b)
        (flush_loop-Outcome idx f w s₀ at' fresh bs write given pos h' e'))

-- `fcb_flush` of a file with one write buffer `w`, by a driver that can write and gives whole blocks.
-- When it returns true, the driver was given one write of whole blocks that holds the bytes of `w` at
-- their offset, inside a transaction where the driver has such, and the file has no buffer. When it
-- returns false, for whatever reason, a buffer of the file still holds the bytes of `w`. It has a
-- result but for a buffer that begins inside a block and ends in front of its end, for which the
-- source writes behind the memory that it has asked for.
pub fcb_flush-Outcome :
    (fresh : ℕ → List ℕ) (idx : ℕ) (s : Fs) (f d : Fcb) (w : WriteBuf)
    (write : ℕ → ℕ → ℕ → List ℕ → Bool)
    → ((n : ℕ) → length (fresh n) ≡ n)
    → get_elem? s.fcbs.fcb idx ≡ some f
    → get_elem? s.fcbs.fcb f.storage ≡ some d
    → f.buf ≡ w ∷ []
    → d.blksize ≢ 0
    → WholeBlocks d.blksize f.fs s
    → driver_write f.fs s ≡ some write
    → FlushOutcome idx d.blksize f w s (fcb_flush fresh idx s)
unfolding fcb_flush flush_from
fcb_flush-Outcome fresh idx s f d w write given at dev b pos h e =
    let bs = d.blksize in
    let s₁ : Fs = record s { workleft = 0 } in
    let s₂ : Fs = if has_writetrb f.fs s then called (Call.writetrb f.storage f.inode) s₁ else s₁ in
    let from = λ (s₀ : Fs). flush_from-Outcome fresh idx bs s s₀ f w write given at b pos h e in
    let fc : s₂.fcbs ≡ s.fcbs = ground arith in
    let fd : s₂.fsdrv ≡ s.fsdrv = ground arith in
    rw (fcb_flush, at, dev)
      (elim (Bool-cases (s.workleft == minus_one)) [
        | inr q ↦ rw q (from s refl refl (ground arith))
        | inl q ↦ rw q (elim (Option-cases (write_error f s)) [
          | inr (x, y) ↦ rw y (f, w, at, b, Covers-self w)
          | inl y ↦ rw y (elim (Bool-cases ((d.blksize == 0) || leb (2 ^ 63) d.blksize)) [
            | inl z ↦ rw z (f, w, at, b, Covers-self w)
            | inr z ↦ rw z (from s₂ fc fd (ground arith))
          ])
        ])
      ])
