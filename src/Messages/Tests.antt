-- ===== src/Messages/Tests.antt =====
-- Messages between two tasks, and queues of a few slots.
use osz.Base.Errno.{success}
use osz.Base.{
  ℕ, ◌+◌, ◌-◌, ◌*◌, ◌^◌, ◌<◌, ◌≤◌, ◌/◌, ◌%◌, ◌≡◌, refl, Bool, true, false, Option, none, some, [],
  ◌∷◌, ◌==◌, ◌||◌, if◌then◌else◌, add64, arith,
}
use osz.Base.Text.{codes, kmemcmp}
use osz.Security.{msg_allowed, is_allowed, fs_allowed}
use osz.Sched.{State, running, blocked, Tcb}
use osz.Messages.{Msg, Queue, bump, ksend, recv}
use osz.Messages.Ring.{IsValid, pending, stored, Taken, ksend-Queued, recv-Taken}
use osz.Messages.Order.{nth_recv, nth_recv-ksend}
use osz.Messages.Send.{
  Area, Core, translate, send_buffer, deliver, send_to, send_checked, msg_sends,
}
use osz.Messages.Sent.{AllValid}
use osz.Messages.Outcome.{Outcome, msg_sends-Outcome}
use osz.Messages.Pages.{send_buffer-overflow}

abbrev msg : ℕ → Msg
msg n = record { evt = n; arg0 = 0; arg1 = 0; arg2 = 0; arg3 = 0; arg4 = 0; arg5 = 0; serial = 0 }

-- Slots 1 to 3, so two messages fit; one waits in slot 3.
abbrev one_waits : Queue
one_waits = record { mq_start = 1; mq_end = 3; mq_size = 4; slots = λ i. msg i }

one_waits-IsValid : IsValid one_waits
one_waits-IsValid = record {
  start_pos = omega arith;
  start_lt = omega arith;
  end_pos = omega arith;
  end_lt = omega arith;
  size_ge = omega arith;
  size_lt = omega arith;
}

-- A third message takes the place of the first.
ksend_full :
    pending (ksend (ksend one_waits (msg 7) 9 0).1 (msg 8) 9 1).1
    ≡ stored (msg 7) 9 0 ∷ stored (msg 8) 9 1 ∷ []
unfolding ksend bump
ksend_full = refl

ksend-Queued_example :
    ((ksend one_waits (msg 7) 9 0).0 ≡ true)
    × ((ksend one_waits (msg 7) 9 0).2 ≡ add64 0 1)
    × IsValid (ksend one_waits (msg 7) 9 0).1
    × (pending (ksend one_waits (msg 7) 9 0).1 ≡ msg 3 ∷ stored (msg 7) 9 0 ∷ [])
ksend-Queued_example = ksend-Queued one_waits (msg 7) 9 0 one_waits-IsValid

recv-Taken_example : Taken one_waits (recv one_waits)
recv-Taken_example = recv-Taken one_waits one_waits-IsValid

nth_recv-ksend_example : nth_recv 1 (ksend one_waits (msg 7) 9 0).1 ≡ some (stored (msg 7) 9 0)
nth_recv-ksend_example = nth_recv-ksend one_waits (msg 7) 9 0 one_waits-IsValid (omega arith)

abbrev task : ℕ → State → Tcb
task root st = record {
  priority = 3;
  state = st;
  memroot = root;
  next = 0;
  prev = 0;
  alarm = 0;
  alarmsec = 0;
  alarmns = 0;
  blktime = 0;
  blkcnt = 0;
}

-- Task 6 runs, task 7 waits; a message area starts at page 21 of its table.
abbrev core : Core
core = record {
  sched = record {
    tasks = λ p. if p == 6 then task 60 running else task 70 blocked;
    current = 6;
    hd_active = λ i. if i == 3 then 6 else 0;
    cr_active = λ i. if i == 3 then 6 else 0;
    hd_blocked = 7;
    hd_timerq = 0;
    tmpalarm = 0;
    ticks_ts = 10;
    ticks_nts = 0;
    ticks_lo = 100;
    idle_mapping = 1;
    idle_first = false;
    isr_next = 0;
    ready = 0;
  };
  is_task = λ p. (p == 6) || (p == 7);
  owner = λ p. codes "joe";
  acl = λ p. [];
  serial = λ p. 0;
  services = 0 ∷ 7 ∷ 0 ∷ 0 ∷ 0 ∷ 0 ∷ 0 ∷ 0 ∷ [];
  nrmqmax = 20;
  srand = λ i. 1;
  coreerrno = 0;
  frame24 = 0;
  frame16 = 0;
  areas = λ r. record { queue = one_waits; mq_buffstart = 21; mq_buffsize = 256; paging = λ i. 0 };
}

-- Function 20 of service -1, which task 7 is
abbrev read_event : ℕ
read_event = (2 ^ 48 - 1) * 2 ^ 16 + 20

-- What a call returns, and the error number.
abbrev result : Option (Bool × Core) → Option (Bool × ℕ)
result none = none
result (some (ok, c)) = some (ok, c.coreerrno)

abbrev no_change : (ℕ → ℕ) → ℕ → ℕ
no_change f = f

-- Service -2 does not run, and service -9 is behind the table.
no_service :
    result (msg_sends (λ p. p) no_change ((2 ^ 48 - 2) * 2 ^ 16 + 20) (msg 0) core)
    ≡ some (false, 3)
unfolding msg_sends translate
no_service = refl

no_such_service :
    result (msg_sends (λ p. p) no_change ((2 ^ 48 - 9) * 2 ^ 16 + 20) (msg 0) core) ≡ none
unfolding msg_sends translate
no_such_service = refl

-- A message that does not wait for its turn: the receiver is woken.
read_sent : result (msg_sends (λ p. p) no_change read_event (msg 0) core) ≡ some (true, 0)
unfolding msg_sends translate send_checked send_to deliver ksend bump msg_allowed is_allowed
    fs_allowed kmemcmp
read_sent = refl

core_valid : AllValid core
core_valid r = one_waits-IsValid

msg_sends-Outcome_example :
    Outcome read_event (msg 0) core (msg_sends (λ p. p) no_change read_event (msg 0) core)
msg_sends-Outcome_example = msg_sends-Outcome (λ p. p) no_change read_event (msg 0) core core_valid

-- An area where 256 pages were taken
abbrev half_full : Area
half_full = record { queue = one_waits; mq_buffstart = 277; mq_buffsize = 256; paging = λ i. 0 }

send_buffer-overflow_example :
    (512 < 277 + (1048576 + 4095) / 4096 → send_buffer (λ p. p) 20 8192 1048576 half_full ≡ none)
    × (277 + (1048576 + 4095) / 4096 ≤ 512
        → (a' : Area) × (send_buffer (λ p. p) 20 8192 1048576 half_full
            ≡ some ((success, 8192 % 4096 + 277 * 4096), a'))
          × (a'.mq_buffstart ≡ 277 + (1048576 + 4095) / 4096))
send_buffer-overflow_example =
    send_buffer-overflow (λ p. p) 20 8192 1048576 half_full (omega arith) (omega arith)
      (omega arith) (omega arith) refl (omega arith) (omega arith)
