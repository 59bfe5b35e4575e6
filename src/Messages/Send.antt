-- ===== src/Messages/Send.antt =====
-- Sending a message, `msg_sends` of src/core/msg.c: the destination, the access checks, the pages of a
-- buffer, the queue and the tasks that change their state.
use osz.Base.Errno.{ebusy, efault, enotshm, eperm, esrch, success}
use osz.Base.{
  ℕ, zero, suc, ◌+◌, ◌-◌, ◌*◌, ◌/◌, ◌%◌, ◌^◌, Bool, true, false, not, ◌&&◌, ◌||◌, Option, none,
  some, List, get_elem?, get_or, ltb, leb, ◌==◌, if◌then◌else◌, add64, u64, int_word,
}
use osz.Security.{Sender, msg_allowed}
use osz.Sched.{Sched, update, sched_block, sched_awake}
use osz.Messages.{Msg, Queue, ksend}

-- `__PAGESIZE`, `__BUFFSIZE`, `FBUF_ADDRESS`, `PG_USER_RO`
abbrev pub page_size : ℕ
page_size = 4096

abbrev pub buff_size : ℕ
buff_size = 1048576

abbrev pub fbuf_address : ℕ
fbuf_address = 2 ^ 64 - 2 ^ 26

abbrev pub pg_user_ro : ℕ
pg_user_ro = 5

-- The message area of a task: the queue, the fields of its header for buffers, and the page table
-- that maps the area, which has 512 entries.
pub record Area : Type 0 where
  pub queue : Queue
  pub mq_buffstart : ℕ
  pub mq_buffsize : ℕ
  pub paging : ℕ → ℕ

-- The state of the core. A message area is that of a `memroot`; the lists are by pid.
pub record Core : Type 0 where
  pub sched : Sched
  -- whether the page holds a task control block
  pub is_task : ℕ → Bool
  pub owner : ℕ → List ℕ
  pub acl : ℕ → List (List ℕ)
  pub serial : ℕ → ℕ
  pub services : List ℕ
  pub nrmqmax : ℕ
  pub srand : ℕ → ℕ
  pub coreerrno : ℕ
  pub areas : ℕ → Area
  -- the words at 24(%rbp) and 16(%rbp) when `ksend` is called, which it takes for `arg4` and `arg5`
  pub frame24 : ℕ
  pub frame16 : ℕ

-- What the access checks read of the task that runs.
abbrev pub sender : Core → Sender
sender c = record {
  pid = c.sched.current;
  priority = (c.sched.tasks c.sched.current).priority;
  owner = c.owner c.sched.current;
  acl = c.acl c.sched.current;
}

-- `coreerrno = e; return false;`
abbrev pub refused : ℕ → Core → Option (Bool × Core)
refused e c = some (false, record c { coreerrno = e })

-- A number of 48 bits: a task, or the negative number of a service, which is looked up. The left
-- result is that of a service that does not run; `none` is a read behind the table.
unfoldable pub translate : List ℕ → (dest : ℕ) → Option (Bool × ℕ)
translate services dest =
    let k = 2 ^ 48 - dest in
    if ltb dest (2 ^ 47)
    then some (true, dest)
    else elim (get_elem? services k) [ none ↦ none | some task ↦ some (not (task == 0), task) ]

-- `bs`, the pages of a buffer of `size` bytes
abbrev pub pages : ℕ → ℕ
pages size = int_word (add64 size (page_size - 1) / page_size)

-- The limit check on the start of the buffers.
unfoldable pub limit_buffers : (nrmqmax bs : ℕ) → Area → Area
limit_buffers nrmqmax bs a =
    if leb (u64 (nrmqmax + 1 + a.mq_buffsize)) (add64 (a.mq_buffstart / page_size) bs)
    then record a { mq_buffstart = u64 ((nrmqmax + 1) * page_size) }
    else a

-- The message as `ksend` finds it.
abbrev pub framed : (event : ℕ) → Msg → Core → Msg
framed event m c = record m { evt = event; arg4 = c.frame24; arg5 = c.frame16 }

-- `ksend`, and what follows it; `q` is the task block of the destination, `a` its area.
unfoldable pub deliver : (q event : ℕ) → Msg → Area → Core → Bool × Core
deliver q event m a c =
    let root = (c.sched.tasks q).memroot in
    let me = c.sched.current in
    let (ok, queue, serial) = ksend a.queue (framed event m c) me (c.serial me) in
    let c₁ : Core = record c {
      areas = update c.areas root (record a { queue = queue });
      serial = update c.serial me serial;
    } in
    if ok
    then (
      true,
      record c₁ {
        coreerrno = success;
        sched = if me == q then c₁.sched else sched_awake q c₁.sched;
      },
    )
    else (
      false,
      record c₁ { coreerrno = ebusy; sched = if me == q then c₁.sched else sched_block q c₁.sched },
    )

-- `getpte` gives the entry that maps an address for the sender.
module _ (getpte : ℕ → ℕ) where
  -- The loop: `s` pages from the address `p` on are mapped.
  unfoldable pub map_buffer : (s p : ℕ) → Area → Option Area
  map_buffer zero p a = some a
  map_buffer (suc s) p a =
      let pte = getpte p in
      let next = map_buffer s (add64 p page_size) (record a {
        paging = update a.paging a.mq_buffstart (add64 (pte / page_size * page_size) pg_user_ro);
        mq_buffstart = suc a.mq_buffstart;
      }) in
      if ltb 511 a.mq_buffstart then none else next

  -- What happens to the buffer of a message: an error number, or the area and the address of the
  -- buffer for the receiver.
  unfoldable pub send_buffer : (nrmqmax arg0 arg1 : ℕ) → Area → Option ((ℕ × ℕ) × Area)
  send_buffer nrmqmax arg0 arg1 a =
      let p = arg0 / page_size * page_size in
      let a₁ = limit_buffers nrmqmax (pages arg1) a in
      let arg0' = add64 (arg0 % page_size) (u64 (a₁.mq_buffstart * page_size)) in
      if leb (2 ^ 63) p && ltb fbuf_address p
      then some ((efault, arg0), a₁)
      else if (p == 0) || leb (2 ^ 63) p
      then some ((success, arg0), a₁)
      else if ltb buff_size arg1
      then some ((enotshm, arg0), a₁)
      else elim (map_buffer (pages arg1) p a₁) [
        | none ↦ none
        | some a₂ ↦ some ((success, arg0'), a₂)
      ]

  -- The destination is mapped. An event with `MSG_PTRDATA`, bit 15, has a buffer.
  unfoldable pub send_to : (q event : ℕ) → Msg → Core → Option (Bool × Core)
  send_to q event m c =
      let root = (c.sched.tasks q).memroot in
      let c₁ : Core = record c { sched = record c.sched { isr_next = root } } in
      if not (c.is_task q)
      then refused esrch c
      else if event / 2 ^ 15 % 2 == 0
      then some (deliver q event m (c.areas root) c₁)
      else elim (send_buffer c.nrmqmax m.arg0 m.arg1 (c.areas root)) [
        | none ↦ none
        | some ((e, arg0), a) ↦
            if e == success
            then some (deliver q event (record m { arg0 = arg0 }) a c₁)
            else refused e (record c₁ { areas = update c.areas root a })
      ]

  -- The access checks on the destination `task`; 0 is the core, whose messages go to the sender.
  unfoldable pub send_checked : (task event : ℕ) → Msg → Core → Option (Bool × Core)
  send_checked task event m c =
      let (ok, e) = msg_allowed (λ k. get_or c.services k 0) (sender c) task event c.coreerrno in
      if ok then send_to (if task == 0 then c.sched.current else task) event m c else refused e c

  -- `kentropy` stirs the words of `srand`; `m` holds the arguments.
  unfoldable pub msg_sends : ((ℕ → ℕ) → ℕ → ℕ) → (event : ℕ) → Msg → Core → Option (Bool × Core)
  msg_sends kentropy event m c =
      let k = event % 4 in
      let c₁ : Core = record c {
        srand = kentropy (update c.srand k (u64 (c.srand k * c.sched.current)));
      } in
      if event % 2 ^ 15 == 0
      then refused eperm c₁
      else elim (translate c.services (event / 2 ^ 16)) [
        | none ↦ none
        | some (false, task) ↦ refused esrch c₁
        | some (true, task) ↦ send_checked task event m c₁
      ]
