-- ===== src/Sched/Tests.antt =====
-- Runs of sched.c on three tasks, and its theorems there.
use osz.Base.{ℕ, ◌≡◌, refl, false, Option, none, some, List, [], ◌∷◌, ◌==◌, if◌then◌else◌, arith}
use osz.Sched.{
  State, blocked, running, Tcb, Sched, sched_remove, push_blocked, join, sched_block, sched_awake,
  pick_turn, pick_found, pick_idle, pick_from, sched_pick,
}
use osz.Sched.Queues.{with_queue}
use osz.Sched.Block.{Consistent, sched_block-Consistent, sched_awake-Consistent}
use osz.Sched.Runs.{Stands, Reach, block, here, next, Reach-Consistent}
use osz.Sched.Pick.{Picked, sched_pick-Picked}

abbrev task : (priority next prev : ℕ) → State → ℕ → Tcb
task k n q s m = record {
  priority = k;
  state = s;
  memroot = m;
  next = n;
  prev = q;
  alarm = 0;
  alarmsec = 0;
  alarmns = 0;
  blktime = 0;
  blkcnt = 0;
}

-- Tasks 5 and 6 are active at priority 3, task 7 is blocked.
abbrev three : Sched
three = record {
  tasks = λ p.
      if p == 5
      then task 3 6 0 running 50
      else if p == 6
      then task 3 0 5 running 60
      else task 3 0 0 blocked 70;
  current = 6;
  hd_active = λ i. if i == 3 then 5 else 0;
  cr_active = λ i. if i == 3 then 6 else 0;
  hd_blocked = 7;
  hd_timerq = 0;
  tmpalarm = 0;
  ticks_ts = 10;
  ticks_nts = 0;
  ticks_lo = 100;
  idle_mapping = 1;
  idle_first = false;
  isr_next = 0;
  ready = 0;
}

abbrev active : ℕ → List ℕ
active i = if i == 3 then 5 ∷ 6 ∷ [] else []

three-Consistent : Consistent three active (7 ∷ [])
three-Consistent = record {
  queued = record {
    active = λ i. ground arith;
    waiting = ground arith;
    active_once = λ i. ground arith;
    blocked_once = ground arith;
    home = λ i p h. ground arith;
    apart = λ i p h. ground arith;
    cursor = λ i. ground arith;
  };
  runs = λ i a h. ground arith;
  waits = λ a h. ground arith;
}

block_links : ((sched_block 6 three).tasks 5).next ≡ 0
unfolding sched_block sched_remove join push_blocked
block_links = refl

pick_six :
    ◌≡◌ {A = Option ℕ} (elim (sched_pick three) [ none ↦ none | some (m, _) ↦ some m ]) (some 60)
unfolding sched_pick pick_from pick_turn pick_found pick_idle
pick_six = refl

sched_block-Consistent_example :
    Consistent (sched_block 5 three) (with_queue active 3 (6 ∷ [])) (5 ∷ 7 ∷ [])
sched_block-Consistent_example = sched_block-Consistent three-Consistent 5 3 refl (omega arith)

sched_awake-Consistent_example :
    Consistent (sched_awake 7 three) (with_queue active 3 (7 ∷ 5 ∷ 6 ∷ [])) []
    × ((sched_awake 7 three).isr_next ≡ 70)
sched_awake-Consistent_example = sched_awake-Consistent three-Consistent 7 refl

abbrev swapped : Sched
swapped = sched_awake 7 (sched_block 5 three)

two_steps :
    Reach active (7 ∷ []) three (with_queue active 3 (6 ∷ [])) (5 ∷ 7 ∷ []) (sched_block 5 three)
two_steps = next here (block 5 3 refl (omega arith))

Reach-Consistent_example :
    Consistent (sched_block 5 three) (with_queue active 3 (6 ∷ [])) (5 ∷ 7 ∷ [])
    × ((a : ℕ) → Stands active (7 ∷ []) a → Stands (with_queue active 3 (6 ∷ [])) (5 ∷ 7 ∷ []) a)
Reach-Consistent_example = Reach-Consistent three-Consistent two_steps

sched_pick-Picked_example :
    (m : ℕ) × (d : Sched) × (sched_pick three ≡ some (m, d)) × Picked three m d
sched_pick-Picked_example = sched_pick-Picked three
