-- ===== src/Messages/Sent.antt =====
-- What a call of `msg_sends` does, by its result.
use osz.Base.Errno.{efault, enotshm, eperm, esrch, success}
use osz.Base.{
  ◌+◌, false, ℕ, zero, suc, ◌-◌, ◌*◌, ◌/◌, ◌%◌, ◌^◌, ◌≡◌, ◌≢◌, ◌⊎◌, inl, inr, refl, sym, ap, ◌∙◌,
  true, ◌&&◌, ◌||◌, Option, none, some, [], ◌∷◌, ◌++◌, length, drop, Bool-cases, ltb, leb, ◌==◌,
  if◌then◌else◌, add64, u64, arith,
}
use mathlib.Core.Path.{subst}
use osz.Sched.{Sched, update, sched_awake}
use osz.Messages.{Msg, Queue, ksend}
use osz.Messages.Ring.{IsValid, pending, stored, ksend-Queued}
use osz.Messages.Send.{
  framed, Area, Core, page_size, pages, pg_user_ro, buff_size, fbuf_address, limit_buffers,
  map_buffer, send_buffer, deliver,
}

-- All queues are valid.
abbrev pub AllValid : Core → Type 0
AllValid c = (r : ℕ) → IsValid (c.areas r).queue

abbrev pub root_of : Core → ℕ → ℕ
root_of c q = (c.sched.tasks q).memroot

-- The scheduler when the area of a task was mapped.
abbrev pub mapped : ℕ → Core → Sched
mapped q c = record c.sched { isr_next = root_of c q }

-- Where the buffers of a message of `size` bytes start in the area: behind the queue again when they
-- would pass the end of the area.
abbrev pub buffer_page : (nrmqmax size : ℕ) → Area → ℕ
buffer_page nrmqmax size a =
    if leb (u64 (nrmqmax + 1 + a.mq_buffsize)) (add64 (a.mq_buffstart / page_size) (pages size))
    then u64 ((nrmqmax + 1) * page_size)
    else a.mq_buffstart

-- The address of the buffer for the receiver: one in the first page or in shared memory, at 2 ^ 63 or
-- above, stays; any other is moved to the page where its buffer is mapped.
abbrev pub receiver_address : (nrmqmax : ℕ) → Msg → Area → ℕ
receiver_address nrmqmax m a =
    if ltb m.arg0 page_size || leb (2 ^ 63) m.arg0
    then m.arg0
    else add64 (m.arg0 % page_size) (u64 (buffer_page nrmqmax m.arg1 a * page_size))

-- After a message was put into the queue of the task `q`: the message stands behind those that
-- waited, the oldest of which is lost when the queue was full; no other area changed, and the task
-- was woken unless it is the sender.
pub record Sent (q event : ℕ) (m : Msg) (c c' : Core) : Type 0 where
  pub addr : ℕ
  pub is_task : c.is_task q ≡ true
  pub errno : c'.coreerrno ≡ success
  pub is_valid : IsValid (c'.areas (root_of c q)).queue
  pub queued :
      pending (c'.areas (root_of c q)).queue
      ≡ drop
          (if length (pending (c.areas (root_of c q)).queue)
              == (c.areas (root_of c q)).queue.mq_size - 2
            then 1
            else 0)
          (pending (c.areas (root_of c q)).queue
            ++ stored
                (framed event (record m { arg0 = addr }) c)
                c.sched.current
                (c.serial c.sched.current)
              ∷ [])
  pub address : addr ≡ (
      if event / 2 ^ 15 % 2 == 0
      then m.arg0
      else receiver_address c.nrmqmax m (c.areas (root_of c q)))
  pub others : (r : ℕ) → r ≢ root_of c q → c'.areas r ≡ c.areas r
  pub woken : c'.sched ≡ (if c.sched.current == q then mapped q c else sched_awake q (mapped q c))

-- After a call was refused with one of four errors: the tasks and all queues are as before.
pub record Refused (c c' : Core) : Type 0 where
  pub errno :
      (c'.coreerrno ≡ eperm)
      ⊎ (c'.coreerrno ≡ esrch)
      ⊎ (c'.coreerrno ≡ efault)
      ⊎ (c'.coreerrno ≡ enotshm)
  pub same_tasks : c'.sched.tasks ≡ c.sched.tasks
  pub same_queues : (r : ℕ) → (c'.areas r).queue ≡ (c.areas r).queue

update_same : {A : Type 0} (f : ℕ → A) (p : ℕ) (v : A) → update f p v p ≡ v
update_same f p v = ground arith

update_ne : {A : Type 0} (f : ℕ → A) (p q : ℕ) (v : A) → q ≢ p → update f p v q ≡ f q
update_ne f p q v h = ground arith

-- `deliver` to a task whose area is `a` after the buffer of the message was mapped.
pub deliver-Sent :
    (q event : ℕ) (m : Msg) (addr : ℕ) (c : Core) (a : Area)
    → a.queue ≡ (c.areas (root_of c q)).queue
    → IsValid a.queue
    → c.is_task q ≡ true
    → addr ≡ (
        if event / 2 ^ 15 % 2 == 0
        then m.arg0
        else receiver_address c.nrmqmax m (c.areas (root_of c q)))
    → let (ok, c') =
        deliver q event (record m { arg0 = addr }) a (record c { sched = mapped q c }) in
      (ok ≡ true) × Sent q event m c c'
unfolding deliver
deliver-Sent q event m addr c a e v t s =
    let me = c.sched.current in
    let root = root_of c q in
    let m' = framed event (record m { arg0 = addr }) c in
    let (k, n, w, p) = ksend-Queued a.queue m' me (c.serial me) v in
    let a' : Area = record a { queue = (ksend a.queue m' me (c.serial me)).1 } in
    let u : (update c.areas root a' root).queue ≡ a'.queue =
      ap (λ (x : Area). x.queue) (update_same c.areas root a') in
    rw k (
      refl,
      record {
        addr = addr;
        is_task = t;
        errno = refl;
        is_valid = subst IsValid (sym u) w;
        queued =
            ap pending u
            ∙ p
            ∙ ap
                (λ (x : Queue).
                  drop (if length (pending x) == x.mq_size - 2 then 1 else 0)
                    (pending x ++ stored m' me (c.serial me) ∷ []))
                e;
        address = s;
        others = λ r h. update_ne c.areas root r a' h;
        woken = refl;
      },
    )

-- The buffer of a message changes no queue.
queue-map_buffer :
    (getpte : ℕ → ℕ) (s p : ℕ) (a a' : Area)
    → map_buffer getpte s p a ≡ some a'
    → a'.queue ≡ a.queue
unfolding map_buffer
queue-map_buffer getpte zero p a a' e = ground arith
queue-map_buffer getpte (suc s) p a a' e =
    let a₁ : Area = record a {
      paging = update a.paging a.mq_buffstart (add64 (getpte p / page_size * page_size) pg_user_ro);
      mq_buffstart = suc a.mq_buffstart;
    } in
    let ih = queue-map_buffer getpte s (add64 p page_size) a₁ a' in
    elim (Bool-cases (ltb 511 a.mq_buffstart)) [
      | inl b ↦ absurd (ground arith)
      | inr b ↦ ih (ground arith)
    ]

-- What `send_buffer` gives for an area and the address `to` that the receiver should get.
abbrev pub Buffered : (to : ℕ) → Area → Option ((ℕ × ℕ) × Area) → Type 0
Buffered to a none = Unit {0}
Buffered to a (some ((e, addr), a')) =
    (a'.queue ≡ a.queue) × (((e ≡ success) × (addr ≡ to)) ⊎ (e ≡ efault) ⊎ (e ≡ enotshm))

queue-limit_buffers : (nrmqmax bs : ℕ) (a : Area) → (limit_buffers nrmqmax bs a).queue ≡ a.queue
unfolding limit_buffers
queue-limit_buffers nrmqmax bs a = ground arith

map_buffer-Buffered :
    (a : Area) (to addr : ℕ) (r : Option Area)
    → addr ≡ to
    → ((a' : Area) → r ≡ some a' → a'.queue ≡ a.queue)
    → Buffered to a (elim r [ none ↦ none | some a' ↦ some ((success, addr), a') ])
map_buffer-Buffered a to addr none q h = tt
map_buffer-Buffered a to addr (some a') q h = (h a' refl, inl (refl, q))

start-limit_buffers :
    (nrmqmax size : ℕ) (a : Area)
    → (limit_buffers nrmqmax (pages size) a).mq_buffstart ≡ buffer_page nrmqmax size a
unfolding limit_buffers
start-limit_buffers nrmqmax size a = ground arith

to_mapped :
    (nrmqmax : ℕ) (m : Msg) (a : Area)
    → ((m.arg0 / page_size * page_size == 0) || leb (2 ^ 63) (m.arg0 / page_size * page_size))
      ≡ false
    → add64
        (m.arg0 % page_size)
        (u64 ((limit_buffers nrmqmax (pages m.arg1) a).mq_buffstart * page_size))
      ≡ receiver_address nrmqmax m a
to_mapped nrmqmax m a h =
    let b : (ltb m.arg0 page_size || leb (2 ^ 63) m.arg0) ≡ false = ground arith in
    rw (start-limit_buffers nrmqmax m.arg1 a, b) refl

pub send_buffer-Buffered :
    (getpte : ℕ → ℕ) (nrmqmax : ℕ) (m : Msg) (a : Area)
    → Buffered (receiver_address nrmqmax m a) a (send_buffer getpte nrmqmax m.arg0 m.arg1 a)
unfolding send_buffer
send_buffer-Buffered getpte nrmqmax m a =
    let arg0 = m.arg0 in
    let arg1 = m.arg1 in
    let to = receiver_address nrmqmax m a in
    let p = arg0 / page_size * page_size in
    let a₁ = limit_buffers nrmqmax (pages arg1) a in
    let l = queue-limit_buffers nrmqmax (pages arg1) a in
    let addr = add64 (arg0 % page_size) (u64 (a₁.mq_buffstart * page_size)) in
    elim (Bool-cases (leb (2 ^ 63) p && ltb fbuf_address p)) [
      | inl b ↦ rw b (l, inr (inl refl))
      | inr b ↦ rw b (elim (Bool-cases ((p == 0) || leb (2 ^ 63) p)) [
        | inl d ↦ rw d (l, inl (refl, ground arith))
        | inr d ↦ rw d (elim (Bool-cases (ltb buff_size arg1)) [
          | inl k ↦ rw k (l, inr (inr refl))
          | inr k ↦ rw k (
              map_buffer-Buffered a to addr (map_buffer getpte (pages arg1) p a₁)
                (to_mapped nrmqmax m a (ground arith))
                (λ a' e. queue-map_buffer getpte (pages arg1) p a₁ a' e ∙ l))
        ])
      ])
    ]
