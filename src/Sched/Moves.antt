-- ===== src/Sched/Moves.antt =====
-- Moving tasks between the active queues and the blocked queue: `sched_add`, `sched_block`,
-- `sched_awake`.
use mathlib.Core.Path.{subst, ap, sym}
use osz.Base.{ℕ, ◌≡◌, ◌≢◌, ◌⊎◌, ◌∙◌, true, false, List, ◌∷◌, ◌==◌, if◌then◌else◌, arith}
use osz.Sched.{Sched, sched_add, push_blocked}
use osz.Sched.Links.{
  has, IsNodup, Links, Links-frame, head-has, SameLinks-of_all, Links-push, has-zero,
}
use osz.Sched.Queues.{Queued, with_queue, by_queue}

-- A change that leaves the queues alone.
pub record SameQueues (c d : Sched) : Type 0 where
  pub nexts : (a : ℕ) → (d.tasks a).next ≡ (c.tasks a).next
  pub prevs : (a : ℕ) → (d.tasks a).prev ≡ (c.tasks a).prev
  pub priorities : (a : ℕ) → (d.tasks a).priority ≡ (c.tasks a).priority
  pub hd_active : d.hd_active ≡ c.hd_active
  pub cr_active : d.cr_active ≡ c.cr_active
  pub hd_blocked : d.hd_blocked ≡ c.hd_blocked

pub Queued-SameQueues :
    {c d : Sched} {act : ℕ → List ℕ} {blk : List ℕ}
    → SameQueues c d
    → Queued c act blk
    → Queued d act blk
Queued-SameQueues {c} {d} {act} {blk} s v = record {
  active = λ i. rw s.hd_active (
      Links-frame c.tasks d.tasks 0 (c.hd_active i) (act i)
        (SameLinks-of_all c.tasks d.tasks (act i) (λ a h. (s.nexts a, s.prevs a))) (v.active i));
  waiting = rw s.hd_blocked (
      Links-frame c.tasks d.tasks 0 c.hd_blocked blk
        (SameLinks-of_all c.tasks d.tasks blk (λ a h. (s.nexts a, s.prevs a))) v.waiting);
  active_once = v.active_once;
  blocked_once = v.blocked_once;
  home = λ i p h. s.priorities p ∙ v.home i p h;
  apart = v.apart;
  cursor = λ i. rw s.cr_active (v.cursor i);
}

-- A task that stands in no queue.
pub record IsIdle (p : ℕ) (act : ℕ → List ℕ) (blk : List ℕ) : Type 0 where
  pub nonzero : p ≢ 0
  pub inactive : (i : ℕ) → has p (act i) ≡ false
  pub awake : has p blk ≡ false

module _ {c : Sched} {act : ℕ → List ℕ} {blk : List ℕ} (v : Queued c act blk) (p : ℕ)
    (idle : IsIdle p act blk) where
  pushed_waiting : Links (push_blocked p c).tasks 0 p (p ∷ blk)
  unfolding push_blocked
  pushed_waiting =
      Links-push c.tasks (push_blocked p c).tasks p c.hd_blocked blk v.waiting v.blocked_once
        idle.awake idle.nonzero (ground arith) (ground arith)
        (λ a h. ground (arith, idle.awake, has-zero c.tasks 0 c.hd_blocked blk v.waiting))

  pushed_active : (i : ℕ) → Links (push_blocked p c).tasks 0 (c.hd_active i) (act i)
  unfolding push_blocked
  pushed_active i =
      Links-frame c.tasks (push_blocked p c).tasks 0 (c.hd_active i) (act i)
        (SameLinks-of_all c.tasks (push_blocked p c).tasks (act i) (λ a h.
          ground
            (arith, idle.inactive i, v.apart i a h, head-has c.tasks 0 c.hd_blocked blk v.waiting)))
        (v.active i)

  push-priority : (a : ℕ) → ((push_blocked p c).tasks a).priority ≡ (c.tasks a).priority
  unfolding push_blocked
  push-priority a = ground arith

  push-heads :
      ((push_blocked p c).hd_active ≡ c.hd_active)
      × ((push_blocked p c).cr_active ≡ c.cr_active)
      × ((push_blocked p c).hd_blocked ≡ p)
  unfolding push_blocked
  push-heads = ground arith

  -- A task that stands in no queue becomes the first of the blocked queue.
  pub push_blocked-Queued : Queued (push_blocked p c) act (p ∷ blk)
  push_blocked-Queued = record {
    active = λ i. rw push-heads.0 (pushed_active i);
    waiting = rw push-heads.2 pushed_waiting;
    active_once = v.active_once;
    blocked_once = (idle.awake, v.blocked_once);
    home = λ i a h. push-priority a ∙ v.home i a h;
    apart = λ i a h. ground (arith, v.apart i a h, idle.inactive i);
    cursor = λ i. rw push-heads.1 (v.cursor i);
  }

  abbrev level : ℕ
  level = (c.tasks p).priority

  added_own : Links (sched_add p c).tasks 0 p (p ∷ act level)
  unfolding sched_add
  added_own =
      let head = head-has c.tasks 0 (c.hd_active level) (act level) (v.active level) in
      let out = idle.inactive level in
      Links-push c.tasks (sched_add p c).tasks p (c.hd_active level) (act level) (v.active level)
        (v.active_once level) out idle.nonzero (ground arith) (ground arith)
        (λ a h. ground (arith, has-zero c.tasks 0 (c.hd_active level) (act level) (v.active level)))

  added_other : (i : ℕ) → level ≢ i → Links (sched_add p c).tasks 0 (c.hd_active i) (act i)
  unfolding sched_add
  added_other i ne =
      Links-frame c.tasks (sched_add p c).tasks 0 (c.hd_active i) (act i)
        (SameLinks-of_all c.tasks (sched_add p c).tasks (act i) (λ a h. ground (
          arith,
          idle.inactive i,
          v.home i a h,
          v.home level (c.hd_active level),
          head-has c.tasks 0 (c.hd_active level) (act level) (v.active level),
        )))
        (v.active i)

  added_blocked : Links (sched_add p c).tasks 0 c.hd_blocked blk
  unfolding sched_add
  added_blocked =
      Links-frame c.tasks (sched_add p c).tasks 0 c.hd_blocked blk
        (SameLinks-of_all c.tasks (sched_add p c).tasks blk (λ a h. ground (
          arith,
          idle.awake,
          v.apart level (c.hd_active level),
          head-has c.tasks 0 (c.hd_active level) (act level) (v.active level),
        )))
        v.waiting

  add-priority : (a : ℕ) → ((sched_add p c).tasks a).priority ≡ (c.tasks a).priority
  unfolding sched_add
  add-priority a = ground arith

  add-hd_active : (i : ℕ) → (sched_add p c).hd_active i ≡ (if level == i then p else c.hd_active i)
  unfolding sched_add
  add-hd_active i = ground arith

  add-heads :
      ((sched_add p c).cr_active ≡ c.cr_active) × ((sched_add p c).hd_blocked ≡ c.hd_blocked)
  unfolding sched_add
  add-heads = ground arith

  add-own_head : (sched_add p c).hd_active level ≡ p
  add-own_head = ground (arith, add-hd_active level)

  -- A task that stands in no queue becomes the first of the queue of its priority.
  pub sched_add-Queued : Queued (sched_add p c) (with_queue act level (p ∷ act level)) blk
  sched_add-Queued = record {
    active =
        by_queue (λ i xs. Links (sched_add p c).tasks 0 ((sched_add p c).hd_active i) xs) act level
          (p ∷ act level) (rw add-own_head added_own)
          (λ i ne.
            let e : (sched_add p c).hd_active i ≡ c.hd_active i = ground (arith, add-hd_active i) in
            rw e (added_other i ne));
    waiting = rw add-heads.1 added_blocked;
    active_once =
        by_queue (λ i xs. IsNodup xs) act level (p ∷ act level)
          (idle.inactive level, v.active_once level) (λ i ne. v.active_once i);
    blocked_once = v.blocked_once;
    home = λ i a h. add-priority a ∙ ground (arith, v.home i a);
    apart = λ i a h. ground (arith, v.apart i a, idle.awake);
    cursor =
        by_queue
          (λ i xs.
            ((sched_add p c).cr_active i ≡ 0) ⊎ (has ((sched_add p c).cr_active i) xs ≡ true))
          act level (p ∷ act level)
          (subst (λ x. (x ≡ 0) ⊎ (has x (p ∷ act level) ≡ true))
            (ap (λ f. f level) (sym add-heads.0)) (ground (arith, v.cursor level)))
          (λ i ne. rw add-heads.0 (v.cursor i));
  }
