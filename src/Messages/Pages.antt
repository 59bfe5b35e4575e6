-- ===== src/Messages/Pages.antt =====
-- The pages of a task's page table that the buffers of messages take.
use osz.Base.Errno.{success}
use osz.Base.{
  ℕ, zero, suc, ◌+◌, ◌*◌, ◌/◌, ◌%◌, ◌^◌, ◌≤◌, ◌<◌, ◌≡◌, inl, inr, refl, ap, false, ◌&&◌, ◌||◌, none,
  some, Bool-cases, ltb, leb, ◌==◌, add64, arith,
}
use osz.Sched.{update}
use osz.Messages.Send.{
  Area, page_size, pages, pg_user_ro, buff_size, fbuf_address, limit_buffers, map_buffer,
  send_buffer,
}

map_buffer_overflow :
    (getpte : ℕ → ℕ) (s p : ℕ) (a : Area)
    → a.mq_buffstart ≤ 512
    → 512 < a.mq_buffstart + s
    → map_buffer getpte s p a ≡ none
unfolding map_buffer
map_buffer_overflow getpte zero p a l h = absurd (omega arith)
map_buffer_overflow getpte (suc s) p a l h =
    let a₁ : Area = record a {
      paging = update a.paging a.mq_buffstart (add64 (getpte p / page_size * page_size) pg_user_ro);
      mq_buffstart = suc a.mq_buffstart;
    } in
    elim (Bool-cases (ltb 511 a.mq_buffstart)) [
      | inl b ↦ rw b refl
      | inr b ↦
          rw b (map_buffer_overflow getpte s (add64 p page_size) a₁ (ground arith) (omega arith))
    ]

map_buffer_fits :
    (getpte : ℕ → ℕ) (s p : ℕ) (a : Area)
    → a.mq_buffstart + s ≤ 512
    → (a' : Area) × (map_buffer getpte s p a ≡ some a') × (a'.mq_buffstart ≡ a.mq_buffstart + s)
unfolding map_buffer
map_buffer_fits getpte zero p a h = (a, refl, omega arith)
map_buffer_fits getpte (suc s) p a h =
    let a₁ : Area = record a {
      paging = update a.paging a.mq_buffstart (add64 (getpte p / page_size * page_size) pg_user_ro);
      mq_buffstart = suc a.mq_buffstart;
    } in
    let b : ltb 511 a.mq_buffstart ≡ false = ground arith in
    let (a', e, n) = map_buffer_fits getpte s (add64 p page_size) a₁ (omega arith) in
    rw b (a', e, omega arith)

-- The limit check never takes effect while the start is in the page table.
limit_buffers_lem :
    (nrmqmax bs : ℕ) (a : Area)
    → a.mq_buffstart ≤ 512
    → a.mq_buffsize ≡ 256
    → 0 < nrmqmax
    → nrmqmax < 2 ^ 32
    → bs ≤ 256
    → limit_buffers nrmqmax bs a ≡ a
unfolding limit_buffers
limit_buffers_lem nrmqmax bs a l e n n' b = ground arith

pages_lem : (size : ℕ) → size ≤ buff_size → pages size ≡ (size + 4095) / 4096
pages_lem size h = ground arith

-- The buffer of a message, at most 1M long at an address from 4096 up to 2 ^ 63, with the sizes that
-- a new task has, takes the next entries of the page table, as many as it has pages, and the
-- receiver's address is that of the first one; the limit check never brings the start back. When the
-- pages do not fit into the 512 entries any more, there is a write behind the page table.
pub send_buffer-overflow :
    (getpte : ℕ → ℕ) (nrmqmax arg0 arg1 : ℕ) (a : Area)
    → 4096 ≤ arg0
    → arg0 < 2 ^ 63
    → arg1 ≤ buff_size
    → a.mq_buffstart ≤ 512
    → a.mq_buffsize ≡ 256
    → 0 < nrmqmax
    → nrmqmax < 2 ^ 32
    → let n = a.mq_buffstart + (arg1 + 4095) / 4096 in
      (512 < n → send_buffer getpte nrmqmax arg0 arg1 a ≡ none)
      × (n ≤ 512
          → (a' : Area) × (send_buffer getpte nrmqmax arg0 arg1 a
              ≡ some ((success, arg0 % 4096 + a.mq_buffstart * 4096), a'))
            × (a'.mq_buffstart ≡ n))
unfolding send_buffer
send_buffer-overflow getpte nrmqmax arg0 arg1 a l0 u0 u1 us e z w =
    let p = arg0 / page_size * page_size in
    let k = pages_lem arg1 u1 in
    let q = limit_buffers_lem nrmqmax (pages arg1) a us e z w (omega (arith, k)) in
    let b₁ : (leb (2 ^ 63) p && ltb fbuf_address p) ≡ false = ground arith in
    let b₂ : ((p == 0) || leb (2 ^ 63) p) ≡ false = ground arith in
    let b₃ : ltb buff_size arg1 ≡ false = ground arith in
    let x : (limit_buffers nrmqmax (pages arg1) a).mq_buffstart ≡ a.mq_buffstart =
      ap (λ (y : Area). y.mq_buffstart) q in
    rw (q, b₁, b₂, b₃)
      (
        λ h. rw (map_buffer_overflow getpte (pages arg1) p a us (omega (arith, k))) refl,
        λ h.
            let (a', d, n) = map_buffer_fits getpte (pages arg1) p a (omega (arith, k)) in
            rw d (a', ap (λ i. some ((success, i), a')) (omega (arith, x)), omega (arith, k)),
      )
