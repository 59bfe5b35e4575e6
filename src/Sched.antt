-- ===== src/Sched.antt =====
-- The scheduler, src/core/sched.c. A task control block lies in the page that its pid names, so the
-- blocks are a function of the pid, and a `tcb_t *` is the pid of the block that it points at: every
-- function maps a block anew before it uses a pointer again. Only the window `tmpalarm` keeps its
-- mapping from one call to the next, and is part of the state.
pub mod Links
pub mod Queues
pub mod Moves
pub mod Awake
pub mod Block
pub mod Runs
pub mod Turn
pub mod Pick
mod Tests
use osz.Base.{
  ℕ, zero, suc, ◌+◌, ◌-◌, Bool, true, false, not, ◌&&◌, ◌||◌, Option, none, some, ltb, ◌==◌,
  if◌then◌else◌, add64, sub64,
}

-- `tcb_state_…`, and the priorities `PRI_SYS` to `PRI_IDLE` as numbers 0 to 7
pub data State : Type 0 where
  hybernated blocked running : State

abbrev pub is_hybernated : State → Bool
is_hybernated hybernated = true
is_hybernated _ = false

abbrev pub is_blocked : State → Bool
is_blocked blocked = true
is_blocked _ = false

abbrev pub pri_idle : ℕ
pri_idle = 7

-- The fields of `tcb_t` that the scheduler reads or writes.
pub record Tcb : Type 0 where
  pub priority : ℕ
  pub state : State
  pub memroot : ℕ
  pub next : ℕ
  pub prev : ℕ
  pub alarm : ℕ
  pub alarmsec : ℕ
  pub alarmns : ℕ
  pub blktime : ℕ
  pub blkcnt : ℕ

-- The task control blocks, the queues of `ccb_t`, the counters `ticks`, and what a call leaves for
-- the interrupt handler.
pub record Sched : Type 0 where
  pub tasks : ℕ → Tcb
  -- the task mapped at address 0
  pub current : ℕ
  pub hd_active : ℕ → ℕ
  pub cr_active : ℕ → ℕ
  pub hd_blocked : ℕ
  pub hd_timerq : ℕ
  pub tmpalarm : ℕ
  pub ticks_ts : ℕ
  pub ticks_nts : ℕ
  pub ticks_lo : ℕ
  pub idle_mapping : ℕ
  pub idle_first : Bool
  pub isr_next : ℕ
  -- how often `sys_ready` was called
  pub ready : ℕ

-- A write at one index.
abbrev pub update {ℓ} : {A : Type ℓ} → (ℕ → A) → ℕ → A → ℕ → A
update f p v q = if p == q then v else f q

-- `tcb_t *sched_get_tcb(pid_t task)`
abbrev pub sched_get_tcb : ℕ → Sched → ℕ
sched_get_tcb task c = if task == 0 then c.current else task

abbrev pub set_next : ℕ → ℕ → Sched → Sched
set_next p v c = record c { tasks = update c.tasks p (record (c.tasks p) { next = v }) }

abbrev pub set_prev : ℕ → ℕ → Sched → Sched
set_prev p v c = record c { tasks = update c.tasks p (record (c.tasks p) { prev = v }) }

abbrev pub set_links : ℕ → (next prev : ℕ) → Sched → Sched
set_links p n v c = record c {
  tasks = update c.tasks p (record (c.tasks p) { next = n; prev = v });
}

abbrev pub set_state : ℕ → State → Sched → Sched
set_state p v c = record c { tasks = update c.tasks p (record (c.tasks p) { state = v }) }

abbrev pub set_alarm : ℕ → ℕ → Sched → Sched
set_alarm p v c = record c { tasks = update c.tasks p (record (c.tasks p) { alarm = v }) }

-- `if(prev != 0) … prev->next = next; if(next != 0) … next->prev = prev;`
unfoldable pub join : (prev next : ℕ) → Sched → Sched
join prev next c =
    let c₁ : Sched = if prev == 0 then c else set_next (sched_get_tcb prev c) next c in
    if next == 0 then c₁ else set_prev (sched_get_tcb next c₁) prev c₁

unfoldable pub sched_add : ℕ → Sched → Sched
sched_add p c =
    let t = c.tasks p in
    let old = c.hd_active t.priority in
    let c₁ : Sched = record (set_links p old 0 c) { hd_active = update c.hd_active t.priority p } in
    if old == 0 then c₁ else set_prev (sched_get_tcb old c₁) p c₁

unfoldable pub sched_remove : ℕ → Sched → Sched
sched_remove p c =
    let t = c.tasks p in
    let hd = c.hd_active t.priority in
    let cr = c.cr_active t.priority in
    join t.prev t.next (record (set_links p 0 0 c) {
      hd_active = if hd == p then update c.hd_active t.priority t.next else c.hd_active;
      cr_active = if cr == p then update c.cr_active t.priority t.next else c.cr_active;
    })

-- The block of a task that stops running.
abbrev pub stop_task : ℕ → Sched → Sched
stop_task p c = record c {
  tasks = update c.tasks p (record (c.tasks p) { blktime = c.ticks_lo; state = blocked });
}

-- Links a task in front of the blocked queue.
unfoldable pub push_blocked : ℕ → Sched → Sched
push_blocked p c =
    let c₁ : Sched = if c.hd_blocked == 0 then c else set_prev (sched_get_tcb c.hd_blocked c) p c in
    record (set_state p blocked (set_links p c₁.hd_blocked 0 c₁)) { hd_blocked = p }

unfoldable pub sched_block : ℕ → Sched → Sched
sched_block p c =
    if (c.tasks p).memroot == c.idle_mapping
    then c
    else push_blocked p (sched_remove p (stop_task p c))

unfoldable pub sched_hybernate : ℕ → Sched → Sched
sched_hybernate p c = set_state p hybernated c

-- The time that a task spent blocked is added up.
abbrev pub count_blocked : ℕ → Sched → Sched
count_blocked p c =
    let t = c.tasks p in
    record c {
      tasks =
          update c.tasks p
            (record t { blkcnt = add64 t.blkcnt (sub64 c.ticks_lo t.blktime); blktime = 0 });
    }

-- Takes a task out of the blocked queue, by the links that it had there.
unfoldable pub pull_blocked : (p next prev : ℕ) → Sched → Sched
pull_blocked p next prev c =
    join prev next (record c { hd_blocked = if c.hd_blocked == p then next else c.hd_blocked })

unfoldable pub sched_awake : ℕ → Sched → Sched
sched_awake p c =
    let t = c.tasks p in
    let c₁ : Sched = if is_hybernated t.state then set_state p blocked c else c in
    let c₂ : Sched =
      if is_blocked (c₁.tasks p).state
      then pull_blocked p t.next t.prev (sched_add p (count_blocked p c₁))
      else c₁ in
    record (set_state p running c₂) { isr_next = t.memroot }

-- One turn over the queues from priority `i` on, `n` of them: the first queue whose cursor is on a
-- task, and whether a queue with tasks was seen. A cursor at the end of its list goes to the head.
unfoldable pub pick_turn : (n i : ℕ) → Bool → Sched → Option ℕ × Bool × Sched
pick_turn zero i nonempty c = (none, nonempty, c)
pick_turn (suc n) i nonempty c =
    let skip = pick_turn n (i + 1) nonempty c in
    let rewind =
      pick_turn n (i + 1) true (record c { cr_active = update c.cr_active i (c.hd_active i) }) in
    if c.hd_active i == 0 then skip else if c.cr_active i == 0 then rewind else (some i, true, c)

-- `found:` the task under the cursor of queue `i`; the cursor moves on.
unfoldable pub pick_found : ℕ → Sched → ℕ × Sched
pick_found i c =
    let p = c.cr_active i in
    let t = c.tasks (sched_get_tcb p c) in
    let c₁ : Sched = record c { cr_active = update c.cr_active i t.next } in
    (
      t.memroot,
      if not (c.current == sched_get_tcb p c) then record c₁ { isr_next = t.memroot } else c₁,
    )

-- Nothing to run but the idle queue, or the idle task itself.
unfoldable pub pick_idle : Sched → ℕ × Sched
pick_idle c =
    let run = pick_found pri_idle (
      if c.cr_active pri_idle == 0
      then record c { cr_active = update c.cr_active pri_idle (c.hd_active pri_idle) }
      else c) in
    if c.hd_active pri_idle == 0
    then (
      c.idle_mapping,
      record c {
        isr_next = c.idle_mapping;
        ready = if c.idle_first then c.ready + 1 else c.ready;
        idle_first = false;
      },
    )
    else run

-- `again:` with a bound on the turns; `nonempty` keeps its value from one turn to the next.
unfoldable pub pick_from : ℕ → Bool → Sched → Option (ℕ × Sched)
pick_from zero nonempty c = none
pick_from (suc turns) nonempty c =
    let (found, more, c') = pick_turn pri_idle 0 nonempty c in
    let again = pick_from turns true c' in
    elim found [
      | some i ↦ some (pick_found i c')
      | none ↦ if more then again else some (pick_idle c')
    ]

unfoldable pub sched_pick : Sched → Option (ℕ × Sched)
sched_pick c = pick_from 2 false c

-- Whether the alarm of `t` is later than the time given.
abbrev pub is_later : Tcb → (sec nsec : ℕ) → Bool
is_later t sec nsec = ltb sec t.alarmsec || (sec == t.alarmsec && ltb nsec t.alarmns)

-- The walk through the timer queue, for at most `n` tasks.
unfoldable pub alarm_walk : (n : ℕ) (p sec nsec prev next : ℕ) → Sched → Option Sched
alarm_walk zero p sec nsec prev next c = none
alarm_walk (suc n) p sec nsec prev next c =
    let t = c.tasks (sched_get_tcb next c) in
    let rest = alarm_walk n p sec nsec next t.alarm c in
    if is_later t sec nsec
    then some (set_alarm p next (if prev == 0 then c else set_alarm (sched_get_tcb prev c) p c))
    else if t.alarm == 0
    then some (set_alarm (sched_get_tcb next c) p c)
    else rest

-- Whether the time is over.
abbrev pub is_past : (sec nsec : ℕ) → Sched → Bool
is_past sec nsec c = ltb sec c.ticks_ts || (c.ticks_ts == sec && ltb nsec c.ticks_nts)

-- `n` bounds the length of the timer queue; `none` when it is longer.
unfoldable pub sched_alarm : (n : ℕ) (p sec nsec : ℕ) → Sched → Option Sched
sched_alarm n p sec nsec c =
    let next = c.hd_timerq in
    let c₁ = sched_block p c in
    let c₂ : Sched = record c₁ {
      tasks = update c₁.tasks p (record (c₁.tasks p) { alarmsec = sec; alarmns = nsec });
    } in
    if is_past sec nsec c
    then some (sched_awake p c)
    else if c₂.hd_timerq == 0 || is_later (c₂.tasks c₂.tmpalarm) sec nsec
    then some (record (set_alarm p c₂.hd_timerq c₂) { hd_timerq = p; tmpalarm = p })
    else alarm_walk n p sec nsec 0 next c₂
