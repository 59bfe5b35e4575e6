-- ===== src/Messages.antt =====
-- The message queue of a task: `ksend` of src/core/x86_64/libk.S, which stores a message, and the part
-- of `isr_syscall` of src/core/x86_64/isrc.S that takes the next one. The queue is an array of slots of
-- 64 bytes, of which slot 0 is the header `msghdr_t`.
pub mod Slots
pub mod Ring
pub mod Order
pub mod Send
pub mod Sent
pub mod Outcome
pub mod Pages
mod Tests
use osz.Base.{
  ℕ, zero, suc, ◌+◌, ◌-◌, ◌*◌, ◌/◌, ◌%◌, ◌^◌, Bool, true, false, not, ◌&&◌, ◌||◌, Option, none,
  some, List, [], ◌∷◌, ltb, leb, ◌==◌, if◌then◌else◌, add64, sub64, u64,
}

-- `msg_t`
pub record Msg : Type 0 where
  pub evt : ℕ
  pub arg0 : ℕ
  pub arg1 : ℕ
  pub arg2 : ℕ
  pub arg3 : ℕ
  pub arg4 : ℕ
  pub arg5 : ℕ
  pub serial : ℕ

-- The fields of `msghdr_t` for messages, and the slots: `mq_start` is the next one to write,
-- `mq_end` the next one to read.
pub record Queue : Type 0 where
  pub mq_start : ℕ
  pub mq_end : ℕ
  pub mq_size : ℕ
  pub slots : ℕ → Msg

-- The slot behind slot `k`; the one behind the last is slot 1.
unfoldable pub bump : (size k : ℕ) → ℕ
bump size k = if add64 k 1 == size then 1 else add64 k 1

-- The test for a full queue.
abbrev pub is_full : Queue → Bool
is_full q =
    (add64 q.mq_start 1 == q.mq_end) || ((add64 q.mq_start 1 == q.mq_size) && (q.mq_end == 1))

-- The event with the pid of the sender in place of the destination; the parts have no bit in common.
abbrev pub sent_evt : (pid event : ℕ) → ℕ
sent_evt pid event = u64 (pid * 2 ^ 16) + event % 2 ^ 16

-- A write to a slot.
abbrev pub store : ℕ → Msg → (ℕ → Msg) → ℕ → Msg
store i m slots j = if i == j then m else slots j

-- `m` is the message, with `arg4` and `arg5` what stands at 24(%rbp) and 16(%rbp), `pid` the sender,
-- and `serial` the counter of the sender. The result is that of the call, the queue, and the counter.
unfoldable pub ksend : Queue → Msg → (pid serial : ℕ) → Bool × Queue × ℕ
ksend q m pid serial =
    let q₁ : Queue = if is_full q then record q { mq_end = bump q.mq_size q.mq_end } else q in
    let serial' = add64 serial 1 in
    let m' : Msg = record m { evt = sent_evt pid m.evt; serial = serial' } in
    (
      true,
      record q₁ { slots = store q.mq_start m' q.slots; mq_start = bump q.mq_size q.mq_start },
      serial',
    )

-- What `SYS_recv` returns: the function, the sender and the message; or the task has to wait.
unfoldable pub recv : Queue → Option ((ℕ × ℕ × Msg) × Queue)
recv q =
    let m = q.slots q.mq_end in
    if q.mq_end == q.mq_start
    then none
    else some ((m.evt % 2 ^ 15, m.evt / 2 ^ 16, m), record q { mq_end = bump q.mq_size q.mq_end })
