-- ===== src/Messages/Outcome.antt =====
-- The result of `msg_sends` on every branch.
use osz.Base.Errno.{efault, enotshm, eperm, esrch, success}
use osz.Base.{
  ℕ, ◌*◌, ◌/◌, ◌%◌, ◌^◌, ◌≡◌, ◌⊎◌, inl, inr, refl, sym, ap, ◌∙◌, Bool, true, false, Option, none,
  some, get_or, Bool-cases, ◌==◌, if◌then◌else◌, u64, arith,
}
use mathlib.Core.Path.{subst}
use osz.Security.{Sender, msg_allowed}
use osz.Sched.{update}
use osz.Messages.{Msg}
use osz.Messages.Ring.{IsValid}
use osz.Messages.Send.{
  Area, Core, sender, refused, translate, send_buffer, deliver, send_to, send_checked, msg_sends,
}
use osz.Messages.Sent.{
  AllValid, receiver_address, root_of, mapped, Sent, Refused, Buffered, send_buffer-Buffered,
  deliver-Sent,
}

-- The task `q` is the destination of the event: by its number or that of a service that runs, and the
-- sender may send the event. Messages to the core, 0, go to the sender.
pub record IsDest (q event : ℕ) (c : Core) : Type 0 where
  pub task : ℕ
  pub named : translate c.services (event / 2 ^ 16) ≡ some (true, task)
  pub allowed :
      (msg_allowed (λ k. get_or c.services k 0) (sender c) task event c.coreerrno).0 ≡ true
  pub target : q ≡ (if task == 0 then c.sched.current else task)

-- The service of a number behind the table.
abbrev pub NoService : ℕ → Core → Type 0
NoService event c = translate c.services (event / 2 ^ 16) ≡ none

abbrev pub Outcome : (event : ℕ) (m : Msg) (c : Core) → Option (Bool × Core) → Type 0
Outcome event m c none = NoService event c ⊎ (event / 2 ^ 15 % 2 ≡ 1)
Outcome event m c (some (false, c')) = Refused c c'
Outcome event m c (some (true, c')) = (q : ℕ) × (IsDest q event c × Sent q event m c c')

deliver-Outcome :
    (q event : ℕ) (m : Msg) (c : Core) (r : Bool × Core)
    → IsDest q event c
    → (r.0 ≡ true) × Sent q event m c r.1
    → Outcome event m c (some r)
deliver-Outcome q event m c (true, c') d (b, s) = (q, (d, s))
deliver-Outcome q event m c (false, c') d (b, s) = absurd (ground arith)

update_queue :
    (f : ℕ → Area) (p r : ℕ) (a : Area)
    → a.queue ≡ (f p).queue
    → (update f p a r).queue ≡ (f r).queue
update_queue f p r a u = elim (Bool-cases (p == r)) [
  | inl b ↦ rw b (u ∙ ap (λ i. (f i).queue) {x = p} {y = r} (ground arith))
  | inr b ↦ rw b refl
]

accepted :
    (e addr to : ℕ)
    → ((e ≡ success) × (addr ≡ to)) ⊎ (e ≡ efault) ⊎ (e ≡ enotshm)
    → (e == success) ≡ true
    → addr ≡ to
accepted e addr to (inl (z, y)) k = y
accepted e addr to (inr (inl z)) k = ground arith
accepted e addr to (inr (inr z)) k = ground arith

-- What follows `send_buffer`.
buffer-Outcome :
    (q event : ℕ) (m : Msg) (c : Core) (r : Option ((ℕ × ℕ) × Area))
    → IsDest q event c
    → AllValid c
    → c.is_task q ≡ true
    → event / 2 ^ 15 % 2 ≡ 1
    → Buffered (receiver_address c.nrmqmax m (c.areas (root_of c q))) (c.areas (root_of c q)) r
    → Outcome event m c (elim r [
      | none ↦ none
      | some ((e, arg0), a) ↦
          if e == success
          then some (deliver q event (record m { arg0 = arg0 }) a (record c { sched = mapped q c }))
          else refused e (record c { sched = mapped q c; areas = update c.areas (root_of c q) a })
    ])
buffer-Outcome q event m c none d v t b h = inr b
buffer-Outcome q event m c (some ((e, arg0), a)) d v t b (u, w) =
    let to = receiver_address c.nrmqmax m (c.areas (root_of c q)) in
    elim (Bool-cases (e == success)) [
      | inl k ↦ rw k (
          deliver-Outcome q event m c
            (deliver q event (record m { arg0 = arg0 }) a (record c { sched = mapped q c })) d
            (deliver-Sent q event m arg0 c a u (subst IsValid (sym u) (v (root_of c q))) t
              (ground (arith, accepted e arg0 to w k))))
      | inr k ↦ rw k (record {
        errno = elim w [ inl (z, y) ↦ absurd (ground arith) | inr z ↦ inr (inr z) ];
        same_tasks = refl;
        same_queues = λ r. update_queue c.areas (root_of c q) r a u;
      })
    ]

send_to-Outcome :
    (getpte : ℕ → ℕ) (q event : ℕ) (m : Msg) (c : Core)
    → IsDest q event c
    → AllValid c
    → Outcome event m c (send_to getpte q event m c)
unfolding send_to
send_to-Outcome getpte q event m c d v =
    let root = root_of c q in
    elim (Bool-cases (c.is_task q)) [
      | inr t ↦ rw t (record { errno = inr (inl refl); same_tasks = refl; same_queues = λ r. refl })
      | inl t ↦ rw t (elim (Bool-cases (event / 2 ^ 15 % 2 == 0)) [
        | inl b ↦ rw b (
            deliver-Outcome q event m c
              (deliver q event m (c.areas root) (record c { sched = mapped q c })) d
              (deliver-Sent q event m m.arg0 c (c.areas root) refl (v root) t (ground arith)))
        | inr b ↦ rw b (
            buffer-Outcome q event m c (send_buffer getpte c.nrmqmax m.arg0 m.arg1 (c.areas root)) d
              v t (ground arith) (send_buffer-Buffered getpte c.nrmqmax m (c.areas root)))
      ])
    ]

refused_error :
    (services : ℕ → ℕ) (t : Sender) (dest event errno : ℕ)
    → (msg_allowed services t dest event errno).0 ≡ false
    → (msg_allowed services t dest event errno).1 ≡ eperm
unfolding msg_allowed
refused_error services t dest event errno h = ground arith

send_checked-Outcome :
    (getpte : ℕ → ℕ) (task event : ℕ) (m : Msg) (c : Core)
    → translate c.services (event / 2 ^ 16) ≡ some (true, task)
    → AllValid c
    → Outcome event m c (send_checked getpte task event m c)
unfolding send_checked
send_checked-Outcome getpte task event m c e v =
    let services = λ (k : ℕ). get_or c.services k 0 in
    let q = if task == 0 then c.sched.current else task in
    elim (Bool-cases (msg_allowed services (sender c) task event c.coreerrno).0) [
      | inl b ↦ rw b (
          send_to-Outcome getpte q event m c
            (record { task = task; named = e; allowed = b; target = refl }) v)
      | inr b ↦ rw b (record {
        errno = inl (refused_error services (sender c) task event c.coreerrno b);
        same_tasks = refl;
        same_queues = λ r. refl;
      })
    ]

-- The words of `srand` do not matter.
Outcome-srand :
    (event : ℕ) (m : Msg) (c : Core) (f : ℕ → ℕ) (r : Option (Bool × Core))
    → Outcome event m (record c { srand = f }) r
    → Outcome event m c r
Outcome-srand event m c f none h = h
Outcome-srand event m c f (some (false, c')) h = record {
  errno = h.errno;
  same_tasks = h.same_tasks;
  same_queues = h.same_queues;
}
Outcome-srand event m c f (some (true, c')) (q, (d, s)) = (
  q,
  (
    record { task = d.task; named = d.named; allowed = d.allowed; target = d.target },
    record {
      addr = s.addr;
      is_task = s.is_task;
      errno = s.errno;
      is_valid = s.is_valid;
      queued = s.queued;
      address = s.address;
      others = s.others;
      woken = s.woken;
    },
  ),
)

translated-Outcome :
    (getpte : ℕ → ℕ) (event : ℕ) (m : Msg) (c : Core) (r : Option (Bool × ℕ))
    → translate c.services (event / 2 ^ 16) ≡ r
    → AllValid c
    → Outcome event m c (elim r [
      | none ↦ none
      | some (false, task) ↦ refused esrch c
      | some (true, task) ↦ send_checked getpte task event m c
    ])
translated-Outcome getpte event m c none e v = inl e
translated-Outcome getpte event m c (some (false, task)) e v = record {
  errno = inr (inl refl);
  same_tasks = refl;
  same_queues = λ r. refl;
}
translated-Outcome getpte event m c (some (true, task)) e v =
    send_checked-Outcome getpte task event m c e v

-- With valid queues, a call of `msg_sends` that returns true has put its message, with the pid of the
-- sender, but for `arg4` and `arg5`, and for an event with a buffer with the address at which the
-- receiver finds it in `arg0`, behind those that wait in the queue of a destination that the
-- sender may send it to, has woken this task unless it is the sender, and has changed no other area;
-- the oldest message is lost when the queue was full. A call that returns false leaves the tasks and
-- all queues as they were, with the error `EPERM`, `ESRCH`, `EFAULT` or `ENOTSHM`. There is no result
-- only for a service number behind the table or an event with a buffer.
pub msg_sends-Outcome :
    (getpte : ℕ → ℕ) (kentropy : (ℕ → ℕ) → ℕ → ℕ) (event : ℕ) (m : Msg) (c : Core)
    → AllValid c
    → Outcome event m c (msg_sends getpte kentropy event m c)
unfolding msg_sends
msg_sends-Outcome getpte kentropy event m c v =
    let k = event % 4 in
    let f = kentropy (update c.srand k (u64 (c.srand k * c.sched.current))) in
    let c₁ : Core = record c { srand = f } in
    elim (Bool-cases (event % 2 ^ 15 == 0)) [
      | inl b ↦ rw b (record { errno = inl refl; same_tasks = refl; same_queues = λ r. refl })
      | inr b ↦ rw b (
          Outcome-srand event m c f
            (elim (translate c.services (event / 2 ^ 16)) [
              | none ↦ none
              | some (false, task) ↦ refused esrch c₁
              | some (true, task) ↦ send_checked getpte task event m c₁
            ])
            (translated-Outcome getpte event m c₁ (translate c.services (event / 2 ^ 16)) refl v))
    ]
