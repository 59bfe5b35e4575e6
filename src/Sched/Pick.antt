-- ===== src/Sched/Pick.antt =====
-- `sched_pick`: which task runs next.
use mathlib.Core.Path.{ap}
use osz.Base.{
  ℕ, ◌<◌, ◌≡◌, ◌≢◌, inl, inr, refl, ◌∙◌, Bool, true, false, Option, none, some, ◌==◌, Bool-cases,
  if◌then◌else◌, arith,
}
use osz.Sched.{
  Tcb, Sched, update, sched_get_tcb, pick_turn, pick_found, pick_idle, pick_from, sched_pick,
}
use osz.Sched.Turn.{Turned, Over, Turn, pick_turn-Turn}

-- The task `p` runs from queue `i`: its memory is returned and, unless it runs already, mapped next,
-- and the cursor of the queue moves behind it.
pub record Runs (c : Sched) (p i : ℕ) (m : ℕ) (d : Sched) : Type 0 where
  pub memory : m ≡ (c.tasks p).memroot
  pub cursor : d.cr_active i ≡ (c.tasks p).next
  pub mapped : c.current ≢ p → d.isr_next ≡ m

-- The choice of `sched_pick`, by its reasons.
pub data Picked (c : Sched) (m : ℕ) (d : Sched) : Type 0 where
  -- the first queue whose cursor is on a task
  at_cursor :
      (i : ℕ)
      → i < 7
      → c.hd_active i ≢ 0
      → c.cr_active i ≢ 0
      → ((j : ℕ) → j < i → Over c j)
      → Runs c (c.cr_active i) i m d
      → Picked c m d
  -- all queues are over: the head of the first queue that is not empty
  at_head :
      (i : ℕ)
      → i < 7
      → c.hd_active i ≢ 0
      → ((j : ℕ) → j < 7 → Over c j)
      → ((j : ℕ) → j < i → c.hd_active j ≡ 0)
      → Runs c (c.hd_active i) i m d
      → Picked c m d
  -- only the idle queue has tasks
  at_idle :
      ((j : ℕ) → j < 7 → c.hd_active j ≡ 0)
      → c.hd_active 7 ≢ 0
      → Runs c (if c.cr_active 7 == 0 then c.hd_active 7 else c.cr_active 7) 7 m d
      → Picked c m d
  -- no queue has
  no_task :
      ((j : ℕ) → j < 8 → c.hd_active j ≡ 0)
      → m ≡ c.idle_mapping
      → d.isr_next ≡ c.idle_mapping
      → Picked c m d

found-Runs :
    (c d : Sched) (i p : ℕ)
    → d.tasks ≡ c.tasks
    → d.current ≡ c.current
    → p ≢ 0
    → d.cr_active i ≡ p
    → Runs c p i (pick_found i d).0 (pick_found i d).1
unfolding pick_found
found-Runs c d i p ts cu ne e =
    let got : sched_get_tcb (d.cr_active i) d ≡ p = ground arith in
    let block : d.tasks (sched_get_tcb (d.cr_active i) d) ≡ c.tasks p =
      ap d.tasks got ∙ ap (λ (f : ℕ → Tcb). f p) ts in
    let memory = ap (λ (t : Tcb). t.memroot) block in
    let next = ap (λ (t : Tcb). t.next) block in
    record { memory = memory; cursor = ground (arith, next); mapped = λ k. ground (arith, got, cu) }

-- What is left of a turn that found nothing.
record Ended (c d : Sched) : Type 0 where
  over : (j : ℕ) → j < 7 → Over c j
  turned : Turned c d 0 7

-- The second turn finds the first queue that has tasks.
second :
    (c d : Sched) (o : Option ℕ) (m : Bool) (e : Sched)
    → Ended c d
    → (j : ℕ) → j < 7
    → c.hd_active j ≢ 0
    → Turn 7 0 true d (o, m, e)
    → (i : ℕ) × (o ≡ some i) × Picked c (pick_found i e).0 (pick_found i e).1
second c d none m e n j lt ne (over, t, all, some_) = absurd (
    ground (
      arith,
      over j (omega arith) (omega arith),
      n.turned.cursors j,
      ap (λ (f : ℕ → ℕ). f j) n.turned.hd_active,
    ))
second c d (some i) m e n j lt ne (le, lt', hd, cr, over, t) =
    let same = λ (k : ℕ). ap (λ (f : ℕ → ℕ). f k) n.turned.hd_active in
    let head : d.cr_active i ≡ c.hd_active i = ground (arith, n.turned.cursors i, same i) in
    let has : c.hd_active i ≢ 0 = ground (arith, same i) in
    (
      i,
      refl,
      at_head i lt' has n.over
          (λ k u. ground (arith, over k (omega arith) u, n.turned.cursors k, same k))
          (found-Runs c e i (c.hd_active i) (t.tasks ∙ n.turned.tasks)
            (t.current ∙ n.turned.current) has (ground (arith, t.cursors i, head))),
    )

again :
    (d : Sched) (i : ℕ)
    → (pick_turn 7 0 true d).0 ≡ some i
    → pick_from 1 true d ≡ some (pick_found i (pick_turn 7 0 true d).2)
unfolding pick_from
again d i e = rw (e, pick_from)

idle-Picked :
    (c d : Sched)
    → Turned c d 0 7
    → ((j : ℕ) → j < 7 → c.hd_active j ≡ 0)
    → Picked c (pick_idle d).0 (pick_idle d).1
unfolding pick_idle
idle-Picked c d t none_ =
    let same = ap (λ (f : ℕ → ℕ). f 7) t.hd_active in
    let cur = t.cursors 7 in
    elim (Bool-cases (d.hd_active 7 == 0)) [
      | inl e ↦ rw e (no_task (λ j u. ground (arith, none_ j, same)) t.idle_mapping t.idle_mapping)
      | inr ne ↦ rw ne (
          at_idle none_ (ground arith) (
            found-Runs c
              (if d.cr_active 7 == 0
                then record d { cr_active = update d.cr_active 7 (d.hd_active 7) }
                else d)
              7 (if c.cr_active 7 == 0 then c.hd_active 7 else c.cr_active 7)
              (ground (arith, t.tasks)) (ground (arith, t.current)) (ground arith) (ground arith)))
    ]

-- `sched_pick` ends within two turns over the queues. It runs the task under the cursor of the first
-- of the queues 0 to 6 whose cursor is on a task; when all these are at their ends, the head of the
-- first that is not empty; when all are empty, the next of the idle queue; and when that is empty
-- too, the idle task.
pub sched_pick-Picked :
    (c : Sched) → (m : ℕ) × (d : Sched) × (sched_pick c ≡ some (m, d)) × Picked c m d
unfolding sched_pick pick_from
sched_pick-Picked c = go (pick_turn 7 0 false c) (pick_turn-Turn 7 0 false c)
  where
    go :
        (r : Option ℕ × Bool × Sched)
        → Turn 7 0 false c r
        → (m : ℕ) × (d : Sched) × ((elim r.0 [
          | some i ↦ some (pick_found i r.2)
          | none ↦ if r.1 then pick_from 1 true r.2 else some (pick_idle r.2)
        ])
            ≡ some (m, d))
          × Picked c m d
    go (some i, m, d) (le, lt, hd, cr, over, t) = (
      (pick_found i d).0,
      (pick_found i d).1,
      refl,
      at_cursor i lt hd cr (λ j u. over j (omega arith) u)
          (found-Runs c d i (c.cr_active i) t.tasks t.current cr (ground (arith, t.cursors i))),
    )
    go (none, true, d) (over, t, all, some_) = elim some_ [
      | inl f ↦ cc
      | inr (inl f) ↦ cc
      | inr (inr (j, u, w, ne)) ↦
          let (i, e, picked) =
            second c d (pick_turn 7 0 true d).0 (pick_turn 7 0 true d).1 (pick_turn 7 0 true d).2
              (record { over = λ k l. over k (omega arith) l; turned = t }) j w ne
              (pick_turn-Turn 7 0 true d) in
          (
            (pick_found i (pick_turn 7 0 true d).2).0,
            (pick_found i (pick_turn 7 0 true d).2).1,
            again d i e,
            picked,
          )
    ]
    go (none, false, d) (over, t, all, some_) = elim all [
      | inl f ↦ cc
      | inr (f, off, z) ↦
          ((pick_idle d).0, (pick_idle d).1, refl, idle-Picked c d t (λ j u. z j (omega arith) u))
    ]
