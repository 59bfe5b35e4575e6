-- ===== src/Buffers.antt =====
-- The write buffers of a file, src/fs/fcb.c: `fcb_write`, `fcb_flush`. The chain
-- of `writebuf_t` of a file is a list. The heap has room. A call that would read or write through
-- NULL, through a freed pointer or behind a buffer has no result (`none`).
pub mod Empty
pub mod Inside
pub mod Flush
mod Tests
use osz.Base.Errno.{eacces, ebadf, ebusy, efault, einval, erofs}
use osz.Base.{
  ℕ, zero, suc, ◌+◌, ◌-◌, ◌%◌, ◌^◌, Bool, true, false, not, ◌&&◌, ◌||◌, Option, none, some, List,
  [], ◌∷◌, ◌++◌, length, get_elem?, take, drop, ltb, leb, ◌==◌, if◌then◌else◌, add64, sub64,
}
use osz.Fcb.{Fcb, WriteBuf}
use osz.Fs.{
  minus_one, o_write, has, Answer, Call, Fs, fails, called, has_writetrb, has_writetre, set_fcb,
  driver_read, driver_write, is_none,
}

abbrev pub end_of : WriteBuf → ℕ
end_of w = add64 w.offs (length w.bytes)

-- The first loop of `fcb_write`: buffers that lie within the new one are removed. After it removed
-- the first one, it goes on from NULL.
unfoldable pub drop_covered : (offs e : ℕ) → Bool → List WriteBuf → Option (List WriteBuf)
drop_covered offs e has_prev [] = some []
drop_covered offs e has_prev (w ∷ ws) =
    let rest = drop_covered offs e true ws in
    if leb offs w.offs && leb (end_of w) e
    then (if has_prev then rest else none)
    else elim rest [ none ↦ none | some ws' ↦ some (w ∷ ws') ]

-- The bytes of a buffer from an offset on replaced.
abbrev pub overwrite : WriteBuf → ℕ → List ℕ → WriteBuf
overwrite w offs buf = record w {
  bytes = take (offs - w.offs) w.bytes ++ (buf ++ drop (offs - w.offs + length buf) w.bytes);
}

-- The second loop, with the buffers passed so far: the chain afterwards, and whether the bytes were
-- stored. A buffer that goes in front of another one becomes the first of the chain.
unfoldable pub insert_buf :
    (offs e : ℕ) → List ℕ → (before after : List WriteBuf) → Option (List WriteBuf × Bool)
insert_buf offs e buf before [] = some (before, false)
insert_buf offs e buf before (w ∷ ws) =
    let we = end_of w in
    let nw : WriteBuf = record { offs = offs; bytes = buf } in
    let rest = insert_buf offs e buf (before ++ w ∷ []) ws in
    if ltb e w.offs
    then some (nw ∷ w ∷ ws, true)
    else if ltb offs w.offs && leb w.offs e && ltb e we
    then some (before ++ record { offs = offs; bytes = buf ++ take (we - e) w.bytes } ∷ ws, true)
    else if leb w.offs offs && leb e we
    then some (before ++ overwrite w offs buf ∷ ws, true)
    else if ltb w.offs offs && leb offs we && ltb we e
    then none
    else if ltb we offs && leb offs we && ltb we e && ltb 0 (length ws)
    then some (before ++ w ∷ nw ∷ ws, true)
    else rest

-- What `fcb_write` does once the checks have passed.
unfoldable pub store_bytes : (idx offs : ℕ) → List ℕ → Fcb → Fs → Option (Bool × Fs)
store_bytes idx offs buf f s =
    let e = add64 offs (length buf) in
    elim (drop_covered offs e false f.buf) [
      | none ↦ none
      | some ws ↦ elim (insert_buf offs e buf [] ws) [
        | none ↦ none
        | some (ws', chk) ↦ some (chk, set_fcb idx (record f { buf = ws' }) s)
      ]
    ]

-- The checks of `fcb_write` and of the first call of `fcb_flush` on an entry.
unfoldable pub write_error : Fcb → Fs → Option ℕ
write_error f s =
    if not (f.type == 0)
    then some ebadf
    else if not (f.storage == minus_one) && (s.fsck_dev == f.storage)
    then some ebusy
    else if not (has f.mode o_write)
    then some eacces
    else if is_none (driver_write f.fs s)
    then some erofs
    else none

-- `offs` is the 64 bit word of an `off_t`.
unfoldable pub fcb_write : (idx offs : ℕ) → List ℕ → Fs → Option (Bool × Fs)
fcb_write idx offs buf s =
    if leb (2 ^ 63) offs then some (fails efault false s) else elim (get_elem? s.fcbs.fcb idx) [
      | none ↦ some (fails efault false s)
      | some f ↦ elim (write_error f s) [
        | some e ↦ some (fails e false s)
        | none ↦ store_bytes idx offs buf f s
      ]
    ]

-- The read of a block that `fcb_flush` makes, when the driver can read. The left result ends the
-- call, which it also does when a block was awaited before.
unfoldable pub ask_block : (storage inode offs bs fs : ℕ) → Fs → Bool × Option (List ℕ) × Fs
ask_block storage inode offs bs fs s = elim (driver_read fs s) [
  | none ↦ (false, none, s)
  | some read ↦
      let a = read storage inode offs bs in
      let delayed = s.ackdelayed || a.delayed in
      (delayed || (a.size == 0), a.blk, record s { ackdelayed = delayed })
]

-- `fresh n` is what memory of `n` bytes holds that `malloc` gives.
module _ (fresh : ℕ → List ℕ) where
  -- A buffer lengthened by `a` bytes at its start; the block that was read has to fit.
  unfoldable pub align_start : (a bs : ℕ) → Option (List ℕ) → WriteBuf → Option WriteBuf
  align_start a bs none w =
      some (record { offs = w.offs - a; bytes = take a (fresh (length w.bytes + a)) ++ w.bytes })
  align_start a bs (some blk) w =
      if ltb (length w.bytes + a) bs || ltb (length blk) bs
      then none
      else some (record { offs = w.offs - a; bytes = take a blk ++ w.bytes })

  -- A buffer lengthened to the end of its last block, which it fills up to byte `a`.
  unfoldable pub align_end : (a bs : ℕ) → Option (List ℕ) → WriteBuf → Option WriteBuf
  align_end a bs none w = some (record w { bytes = w.bytes ++ take (bs - a) (fresh (bs - a)) })
  align_end a bs (some blk) w =
      if ltb (length blk) bs
      then none
      else some (record w { bytes = w.bytes ++ take (bs - a) (drop a blk) })

  -- The first half of the loop's body: the buffer at the start of a block. `true` ends the call.
  unfoldable pub flush_start : (bs : ℕ) → Fcb → WriteBuf → Fs → Option (Bool × WriteBuf × Fs)
  flush_start bs f w s =
      let a = w.offs % bs in
      let (stop, blk, s') = ask_block f.storage f.inode w.offs bs f.fs s in
      if a == 0
      then some (false, w, s)
      else if stop
      then some (true, w, s')
      else elim (align_start a bs blk w) [ none ↦ none | some w' ↦ some (false, w', s') ]

  unfoldable pub flush_end : (bs : ℕ) → Fcb → WriteBuf → Fs → Option (Bool × WriteBuf × Fs)
  flush_end bs f w s =
      let a = length w.bytes % bs in
      let (stop, blk, s') = ask_block f.storage f.inode (w.offs + length w.bytes - a) bs f.fs s in
      if a == 0
      then some (false, w, s)
      else if stop
      then some (true, w, s')
      else elim (align_end a bs blk w) [ none ↦ none | some w' ↦ some (false, w', s') ]

  -- The last part: the buffer is written and taken off the chain. With another buffer behind it the
  -- loop goes on with the one just freed.
  unfoldable pub flush_write : (idx : ℕ) → Fcb → WriteBuf → List WriteBuf → Fs → Option (Bool × Fs)
  flush_write idx f w ws s = elim (driver_write f.fs s) [
    | none ↦ none
    | some write ↦
        let s₁ = called (Call.write_to f.storage f.inode w.offs w.bytes) s in
        let done = write f.storage f.inode w.offs w.bytes in
        if not done
        then some (false, set_fcb idx (record f { buf = w ∷ ws }) s₁)
        else if ltb 0 (length ws)
        then none
        else some (true, set_fcb idx (record f { buf = [] }) s₁)
  ]

  -- The loop: whether all buffers were written.
  unfoldable pub flush_loop : (idx bs : ℕ) → Fcb → List WriteBuf → Fs → Option (Bool × Fs)
  flush_loop idx bs f [] s = some (true, s)
  flush_loop idx bs f (w ∷ ws) s = if bs == 0 then none else elim (flush_start bs f w s) [
    | none ↦ none
    | some (true, w₁, s₁) ↦ some (false, set_fcb idx (record f { buf = w₁ ∷ ws }) s₁)
    | some (false, w₁, s₁) ↦ elim (flush_end bs f w₁ s₁) [
      | none ↦ none
      | some (true, w₂, s₂) ↦ some (false, set_fcb idx (record f { buf = w₂ ∷ ws }) s₂)
      | some (false, w₂, s₂) ↦ flush_write idx f w₂ ws s₂
    ]
  ]

  -- After the loop the transaction ends.
  unfoldable pub flush_done : Fcb → Bool × Fs → Bool × Fs
  flush_done f (false, s) = (false, s)
  flush_done f (true, s) =
      let s₁ : Fs = if has_writetre f.fs s then called (Call.writetre f.storage f.inode) s else s in
      (true, record s₁ { workleft = minus_one })

  unfoldable pub flush_from : (idx bs : ℕ) → Fcb → Fs → Option (Bool × Fs)
  flush_from idx bs f s = elim (flush_loop idx bs f f.buf s) [
    | none ↦ none
    | some r ↦ some (flush_done f r)
  ]

  -- The first call of a transaction makes the checks and begins it.
  unfoldable pub fcb_flush : ℕ → Fs → Option (Bool × Fs)
  fcb_flush idx s = elim (get_elem? s.fcbs.fcb idx) [
    | none ↦ some (fails efault false s)
    | some f ↦ elim (get_elem? s.fcbs.fcb f.storage) [
      | none ↦ none
      | some d ↦
          let s₁ : Fs = record s { workleft = 0 } in
          let s₂ : Fs =
            if has_writetrb f.fs s then called (Call.writetrb f.storage f.inode) s₁ else s₁ in
          if not (s.workleft == minus_one)
          then flush_from idx d.blksize f s
          else elim (write_error f s) [
            | some e ↦ some (fails e false s)
            | none ↦
                if (d.blksize == 0) || leb (2 ^ 63) d.blksize
                then some (fails einval false s)
                else flush_from idx d.blksize f s₂
          ]
    ]
  ]
