-- ===== src/Messages/Ring.antt =====
-- The queue of messages is a bounded queue, first in first out.
use osz.Base.{
  ℕ, ◌-◌, ◌/◌, ◌%◌, ◌^◌, ◌≤◌, ◌<◌, ◌≡◌, refl, sym, ap, ◌∙◌, true, Option, none, some, List, [], ◌∷◌,
  ◌++◌, length, drop, Bool-cases, inl, inr, ◌==◌, if◌then◌else◌, add64, arith,
}
use osz.Messages.{Msg, Queue, bump, is_full, sent_evt, store, ksend, recv}
use osz.Messages.Slots.{
  from, count, length-from, from-cons, count_lt, bump-Range, count-bump_start, full_iff,
  count-bump_both, pending-store, pending-bump,
}

-- The slots 1 to `mq_size - 1` hold messages; the queue takes one less than it has such slots.
pub record IsValid (q : Queue) : Type 0 where
  pub start_pos : 1 ≤ q.mq_start
  pub start_lt : q.mq_start < q.mq_size
  pub end_pos : 1 ≤ q.mq_end
  pub end_lt : q.mq_end < q.mq_size
  pub size_ge : 3 ≤ q.mq_size
  pub size_lt : q.mq_size < 2 ^ 64

-- The messages that wait, the oldest one first.
abbrev pub pending : Queue → List Msg
pending q = from q.slots q.mq_size q.mq_end (count q.mq_size q.mq_start q.mq_end)

-- The message as it is stored.
abbrev pub stored : Msg → (pid serial : ℕ) → Msg
stored m pid serial = record m { evt = sent_evt pid m.evt; serial = add64 serial 1 }

-- A valid queue with other positions.
IsValid-at :
    (q : Queue) (s e : ℕ) (slots : ℕ → Msg)
    → IsValid q
    → (1 ≤ s) × (s < q.mq_size)
    → (1 ≤ e) × (e < q.mq_size)
    → IsValid (record q { mq_start = s; mq_end = e; slots = slots })
IsValid-at q s e slots v (a, b) (c, d) = record {
  start_pos = a;
  start_lt = b;
  end_pos = c;
  end_lt = d;
  size_ge = v.size_ge;
  size_lt = v.size_lt;
}

-- `ksend` on a valid queue always succeeds and keeps it valid: the message goes behind those that
-- wait, with the sender in its event and the next serial number, and when the queue was full, with
-- two messages less than its size, the oldest one is lost.
pub ksend-Queued :
    (q : Queue) (m : Msg) (pid serial : ℕ)
    → IsValid q
    → let (ok, q', serial') = ksend q m pid serial in
      (ok ≡ true)
      × (serial' ≡ add64 serial 1)
      × IsValid q'
      × (pending q'
          ≡ drop
              (if length (pending q) == q.mq_size - 2 then 1 else 0)
              (pending q ++ stored m pid serial ∷ []))
unfolding ksend
ksend-Queued q m pid serial v =
    let size = q.mq_size in
    let s = q.mq_start in
    let e = q.mq_end in
    let m' = stored m pid serial in
    let slots = store s m' q.slots in
    let n = count size s e in
    let l : length (pending q) ≡ n = length-from q.slots size e n in
    let t : (length (pending q) == size - 2) ≡ is_full q =
      ap (λ k. k == size - 2) l
      ∙ sym (full_iff size s e v.start_pos v.start_lt v.end_pos v.end_lt v.size_lt) in
    let r = bump-Range size s e v.start_pos v.start_lt v.end_pos v.end_lt v.size_lt in
    let k = count_lt size s e v.start_pos v.start_lt v.end_pos v.end_lt v.size_lt in
    let p = pending-store q.slots size s e m' v.start_pos v.start_lt v.end_pos v.end_lt v.size_lt in
    elim (Bool-cases (is_full q)) [
      | inl b ↦
          let r' = bump-Range size e s v.end_pos v.end_lt v.start_pos v.start_lt v.size_lt in
          let c = from-cons slots size e n v.end_pos v.end_lt v.size_lt (omega arith) in
          rw (t, b)
            (
              refl,
              refl,
              IsValid-at q (bump size s) (bump size e) slots v r r',
              ap (from slots size (bump size e)) (
                    count-bump_both size s e v.start_pos v.start_lt v.end_pos v.end_lt v.size_lt
                      v.size_ge)
                  ∙ ap (drop 1) (sym c ∙ p),
            )
      | inr b ↦
          rw (t, b)
            (
              refl,
              refl,
              IsValid-at q (bump size s) e slots v r (v.end_pos, v.end_lt),
              ap (from slots size e) (
                    count-bump_start size s e v.start_pos v.start_lt v.end_pos v.end_lt v.size_lt
                      (ground arith))
                  ∙ p,
            )
    ]

-- What `recv` gives for a queue.
abbrev pub Taken : (q : Queue) → Option ((ℕ × ℕ × Msg) × Queue) → Type 0
Taken q none = pending q ≡ []
Taken q (some ((e, sender, m), q')) =
    (pending q ≡ m ∷ pending q') × IsValid q' × (e ≡ m.evt % 2 ^ 15) × (sender ≡ m.evt / 2 ^ 16)

-- A receiver of a valid queue has to wait exactly if no message waits; else it gets the oldest one,
-- with its function and its sender, and the others wait on in a valid queue.
pub recv-Taken : (q : Queue) → IsValid q → Taken q (recv q)
unfolding recv
recv-Taken q v =
    let r =
      bump-Range q.mq_size q.mq_end q.mq_start v.end_pos v.end_lt v.start_pos v.start_lt
        v.size_lt in
    elim (Bool-cases (q.mq_end == q.mq_start)) [
      | inl b ↦ rw b (
          ap (from q.slots q.mq_size q.mq_end) {x = count q.mq_size q.mq_start q.mq_end} {y = 0}
            (ground arith))
      | inr b ↦ rw b (
        pending-bump q.slots q.mq_size q.mq_start q.mq_end v.start_pos v.start_lt v.end_pos v.end_lt
            v.size_lt (ground arith),
        IsValid-at q q.mq_start (bump q.mq_size q.mq_end) q.slots v (v.start_pos, v.start_lt) r,
        refl,
        refl,
      )
    ]
