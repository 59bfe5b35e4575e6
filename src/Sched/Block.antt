-- ===== src/Sched/Block.antt =====
-- `sched_block` and `sched_awake` on consistent queues, and what every run of them keeps.
use mathlib.Core.Path.{subst₃}
use osz.Base.{ℕ, ◌≡◌, ◌≢◌, refl, ◌∙◌, true, false, List, ◌∷◌, ◌==◌, if◌then◌else◌, arith}
use osz.Sched.{
  blocked, running, Sched, is_hybernated, is_blocked, set_state, join, sched_add, sched_remove,
  push_blocked, stop_task, pull_blocked, count_blocked, sched_block, sched_awake,
}
use osz.Sched.Links.{has, remove, has-remove, has-remove_self, has-zero}
use osz.Sched.Queues.{Queued, with_queue, remove-state, sched_remove-Queued}
use osz.Sched.Moves.{SameQueues, Queued-SameQueues, push_blocked-Queued}
use osz.Sched.Awake.{pulled-Queued}

-- The queues hold the lists, the active tasks are running and the others are not.
pub record Consistent (c : Sched) (act : ℕ → List ℕ) (blk : List ℕ) : Type 0 where
  pub queued : Queued c act blk
  pub runs : (i a : ℕ) → has a (act i) ≡ true → (c.tasks a).state ≡ running
  pub waits : (a : ℕ) → has a blk ≡ true → (c.tasks a).state ≢ running

module _ (c : Sched) (p : ℕ) where
  stopped : SameQueues c (stop_task p c)
  stopped = record {
    nexts = λ a. ground arith;
    prevs = λ a. ground arith;
    priorities = λ a. ground arith;
    hd_active = refl;
    cr_active = refl;
    hd_blocked = refl;
  }

  push-state :
      (a : ℕ) → ((push_blocked p c).tasks a).state ≡ (if p == a then blocked else (c.tasks a).state)
  unfolding push_blocked
  push-state a = ground arith

-- The state of each task after `sched_block`.
block-state :
    (c : Sched) (p a : ℕ)
    → ((c.tasks p).memroot == c.idle_mapping) ≡ false
    → ((sched_block p c).tasks a).state ≡ (if p == a then blocked else (c.tasks a).state)
unfolding sched_block
block-state c p a ne = rw ne (
    ground
      (arith, push-state (sched_remove p (stop_task p c)) p a, remove-state (stop_task p c) p a))

module _ {c : Sched} {act : ℕ → List ℕ} {blk : List ℕ} (v : Consistent c act blk) (p k : ℕ)
    (here : has p (act k) ≡ true) where
  blocked-Queued :
      ((c.tasks p).memroot == c.idle_mapping) ≡ false
      → Queued (sched_block p c) (with_queue act k (remove p (act k))) (p ∷ blk)
  unfolding sched_block
  blocked-Queued ne =
      let q = v.queued in
      let s = sched_remove-Queued (Queued-SameQueues (stopped c p) q) p k here in
      let once = has-remove_self p (act k) (q.active_once k) in
      rw ne (
        push_blocked-Queued s p (record {
          nonzero = ground (arith, has-zero c.tasks 0 (c.hd_active k) (act k) (q.active k));
          inactive = λ i. ground (arith, once, q.home i p, q.home k p here);
          awake = q.apart k p here;
        }))

  -- `sched_block` moves an active task from its queue to the front of the blocked queue, unless it
  -- is the idle task: on consistent queues the outcome is consistent again, for the same lists with
  -- the task moved.
  pub sched_block-Consistent :
      (c.tasks p).memroot ≢ c.idle_mapping
      → Consistent (sched_block p c) (with_queue act k (remove p (act k))) (p ∷ blk)
  sched_block-Consistent ne =
      let t : ((c.tasks p).memroot == c.idle_mapping) ≡ false = ground arith in
      record {
        queued = blocked-Queued t;
        runs = λ i a h. ground (
          arith,
          block-state c p a t,
          v.runs i a,
          has-remove a p (act k),
          has-remove_self p (act k) (v.queued.active_once k),
          v.queued.home i p,
          v.queued.home k p here,
        );
        waits = λ a h. ground (arith, block-state c p a t, v.waits a);
      }

-- What `sched_awake` does to a task before it moves it.
abbrev readied : ℕ → Sched → Sched
readied p c = count_blocked p (if is_hybernated (c.tasks p).state then set_state p blocked c else c)

module _ (c : Sched) (p : ℕ) where
  readied-SameQueues : SameQueues c (readied p c)
  readied-SameQueues = record {
    nexts = λ a. ground arith;
    prevs = λ a. ground arith;
    priorities = λ a. ground arith;
    hd_active = ground arith;
    cr_active = ground arith;
    hd_blocked = ground arith;
  }

  readied-state : (a : ℕ) → a ≢ p → ((readied p c).tasks a).state ≡ (c.tasks a).state
  readied-state a ne = ground arith

  finished :
      (d : Sched) → SameQueues d (record (set_state p running d) { isr_next = (c.tasks p).memroot })
  finished d = record {
    nexts = λ a. ground arith;
    prevs = λ a. ground arith;
    priorities = λ a. ground arith;
    hd_active = refl;
    cr_active = refl;
    hd_blocked = refl;
  }

  pull-state :
      (n v a : ℕ) → ((pull_blocked p n v (sched_add p c)).tasks a).state ≡ (c.tasks a).state
  unfolding pull_blocked join sched_add
  pull-state n v a = ground arith

-- A task that waits is moved, and then runs.
sched_awake-waiting :
    (c : Sched) (p : ℕ)
    → (c.tasks p).state ≢ running
    → sched_awake p c
      ≡ record (set_state p running
          (pull_blocked p (c.tasks p).next (c.tasks p).prev (sched_add p (readied p c)))) {
            isr_next = (c.tasks p).memroot;
          }
unfolding sched_awake
sched_awake-waiting c p w =
    let t : is_blocked
          ((if is_hybernated (c.tasks p).state then set_state p blocked c else c).tasks p).state
        ≡ true =
      ground arith in
    rw t

module _ {c : Sched} {act : ℕ → List ℕ} {blk : List ℕ} (v : Consistent c act blk) (p : ℕ)
    (here : has p blk ≡ true) where
  abbrev pub queue : ℕ
  queue = (c.tasks p).priority

  abbrev moved : Sched
  moved = pull_blocked p (c.tasks p).next (c.tasks p).prev (sched_add p (readied p c))

  moved-state : (a : ℕ) → a ≢ p → (moved.tasks a).state ≡ (c.tasks a).state
  moved-state a ne =
      pull-state (readied p c) p (c.tasks p).next (c.tasks p).prev a ∙ readied-state c p a ne

  awake-Queued : Queued moved (with_queue act queue (p ∷ act queue)) (remove p blk)
  awake-Queued =
      let s = readied-SameQueues c p in
      let start = pulled-Queued (Queued-SameQueues s v.queued) p here in
      subst₃
        (λ n q l.
          Queued (pull_blocked p n q (sched_add p (readied p c))) (with_queue act l (p ∷ act l))
            (remove p blk))
        (s.nexts p) (s.prevs p) (s.priorities p) start

  -- `sched_awake` moves a task that waits from the blocked queue to the front of the queue of its
  -- priority, and lets it run next: on consistent queues the outcome is consistent again, for the
  -- same lists with the task moved.
  pub sched_awake-Consistent :
      Consistent (sched_awake p c) (with_queue act queue (p ∷ act queue)) (remove p blk)
      × ((sched_awake p c).isr_next ≡ (c.tasks p).memroot)
  sched_awake-Consistent =
      let w = v.waits p here in
      rw (sched_awake-waiting c p w) (
        record {
          queued = Queued-SameQueues (finished c p moved) awake-Queued;
          runs = λ i a h. ground (arith, moved-state a, v.runs i a);
          waits = λ a h. ground (
            arith,
            moved-state a,
            v.waits a,
            has-remove a p blk,
            has-remove_self p blk v.queued.blocked_once,
          );
        },
        refl,
      )
