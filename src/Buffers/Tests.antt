-- ===== src/Buffers/Tests.antt =====
-- Writes and flushes on small files, and the theorems at these files.
use osz.Base.{
  length, ap, ◌∙◌, Option, ℕ, zero, suc, ◌≡◌, refl, true, none, some, List, [], ◌∷◌, get_elem?,
  arith,
}
use osz.Fcb.{Fcb, WriteBuf}
use osz.Fs.{Answer, Fs, Call, has, set_fcb}
use osz.Fs.Samples.{disk, file_with, service}
use osz.Buffers.{
  drop_covered, insert_buf, store_bytes, write_error, fcb_write, ask_block, align_start, align_end,
  flush_start, flush_end, flush_write, flush_loop, flush_done, flush_from, fcb_flush,
}
use osz.Buffers.Empty.{NoBuffers}
use osz.Buffers.Inside.{Stored, fcb_write-Stored}
use osz.Buffers.Flush.{WholeBlocks, FlushOutcome, fcb_flush-Outcome}

abbrev buf_at : ℕ → List ℕ → WriteBuf
buf_at o bs = record { offs = o; bytes = bs }

abbrev whole : WriteBuf
whole = buf_at 8 (1 ∷ 2 ∷ 3 ∷ 4 ∷ [])

abbrev one_buffer : Fs
one_buffer = service (file_with (whole ∷ []))

abbrev no_buffer : Fs
no_buffer = service (file_with [])

abbrev zeros : ℕ → List ℕ
zeros zero = []
zeros (suc n) = 0 ∷ zeros n

checks_pass : write_error (file_with (whole ∷ [])) one_buffer ≡ none
unfolding write_error has
checks_pass = refl

-- Bytes 9 and 10 of the file.
write_two :
    fcb_write 2 9 (7 ∷ 8 ∷ []) one_buffer
    ≡ some (true, service (file_with (buf_at 8 (1 ∷ 7 ∷ 8 ∷ 4 ∷ []) ∷ [])))
unfolding fcb_write write_error has store_bytes drop_covered insert_buf
write_two = refl

-- A write over the whole buffer goes through NULL.
write_over : fcb_write 2 8 (5 ∷ 6 ∷ 7 ∷ 8 ∷ []) one_buffer ≡ none
unfolding fcb_write write_error has store_bytes drop_covered insert_buf
write_over = refl

-- A buffer that starts inside a block is completed from the device.
flush_part :
    (s' : Fs) × (fcb_flush zeros 2 (service (file_with (buf_at 6 (1 ∷ 2 ∷ 3 ∷ []) ∷ [])))
      ≡ some (true, s'))
    × (s'.calls ≡ Call.write_to 1 0 4 (9 ∷ 9 ∷ 1 ∷ 2 ∷ 3 ∷ 9 ∷ 9 ∷ 9 ∷ []) ∷ Call.writetrb 1 0 ∷ [])
unfolding fcb_flush flush_from flush_loop flush_start flush_end flush_write flush_done ask_block
    align_start align_end write_error has
flush_part = (_, refl, refl)

no_buffer_empty : (i : ℕ) (f : Fcb) → get_elem? no_buffer.fcbs.fcb i ≡ some f → f.buf ≡ []
no_buffer_empty zero f e = ground arith
no_buffer_empty (suc zero) f e = ground arith
no_buffer_empty (suc (suc zero)) f e = ground arith
no_buffer_empty (suc (suc (suc i))) f e = ground arith

no_buffer-NoBuffers : NoBuffers no_buffer
no_buffer-NoBuffers = record { empty = no_buffer_empty }

fcb_write-Stored_example :
    (w' : WriteBuf) × ((ws' : List WriteBuf) × (fcb_write 2 9 (7 ∷ 8 ∷ []) one_buffer
        ≡ some (true, set_fcb 2 (file_with (w' ∷ ws')) one_buffer))
      × Stored whole 9 (7 ∷ 8 ∷ []) w')
fcb_write-Stored_example =
    fcb_write-Stored 2 9 (7 ∷ 8 ∷ []) one_buffer (file_with (whole ∷ [])) whole [] refl checks_pass
      refl (omega arith) (omega arith) (omega arith) (omega arith)

zeros_given : (n : ℕ) → length (zeros n) ≡ n
zeros_given zero = refl
zeros_given (suc n) = ap suc (zeros_given n)

abbrev part : WriteBuf
part = buf_at 6 (1 ∷ 2 ∷ 3 ∷ [])

disk_blocks : WholeBlocks 4 0 (service (file_with (part ∷ [])))
disk_blocks read q storage inode offs b r =
    let e =
      ap
        (λ (o : Option (ℕ → ℕ → ℕ → ℕ → Answer)). elim o as (λ _. Option (List ℕ)) [
          | none ↦ none
          | some g ↦ (g storage inode offs 4).blk
        ])
        q in
    let n : 4 ≡ length b =
      ap (λ (o : Option (List ℕ)). elim o as (λ _. ℕ) [ none ↦ 0 | some x ↦ length x ]) (e ∙ r) in
    omega (arith, n)

fcb_flush-Outcome_example :
    FlushOutcome 2 4
      (file_with (part ∷ []))
      part
      (service (file_with (part ∷ [])))
      (fcb_flush zeros 2 (service (file_with (part ∷ []))))
fcb_flush-Outcome_example =
    fcb_flush-Outcome zeros 2 (service (file_with (part ∷ []))) (file_with (part ∷ [])) disk part
      (λ fd i o b. true) zeros_given refl refl refl (λ e. ground arith) disk_blocks refl
