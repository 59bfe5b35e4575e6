-- ===== src/Sched/Queues.antt =====
-- The active queues and the blocked queue as lists of tasks, and what the moves of sched.c do to
-- these lists.
use mathlib.Core.Path.{subst}
use osz.Base.{ℕ, ◌≡◌, ◌≢◌, ◌⊎◌, inl, inr, true, false, List, ◌==◌, Bool-cases, if◌then◌else◌, arith}
use osz.Sched.{Tcb, Sched, update, join, sched_remove}
use osz.Sched.Links.{
  has, remove, IsNodup, Links, Links-frame, next-has, next-ne, prev-has, has-remove, has-remove_ne,
  remove-IsNodup, JoinedAt, Unlinked-of_all, SameLinks-Unlinked, Links-Unlinked, has-zero,
}

-- The queues hold these lists: every one is linked both ways, no task stands in two places, an
-- active task stands in the queue of its priority, and each cursor is at the end or on a task.
pub record Queued (c : Sched) (act : ℕ → List ℕ) (blk : List ℕ) : Type 0 where
  pub active : (i : ℕ) → Links c.tasks 0 (c.hd_active i) (act i)
  pub waiting : Links c.tasks 0 c.hd_blocked blk
  pub active_once : (i : ℕ) → IsNodup (act i)
  pub blocked_once : IsNodup blk
  pub home : (i p : ℕ) → has p (act i) ≡ true → (c.tasks p).priority ≡ i
  pub apart : (i p : ℕ) → has p (act i) ≡ true → has p blk ≡ false
  pub cursor : (i : ℕ) → (c.cr_active i ≡ 0) ⊎ (has (c.cr_active i) (act i) ≡ true)

-- A list of queues with one of them replaced.
abbrev pub with_queue : (ℕ → List ℕ) → ℕ → List ℕ → ℕ → List ℕ
with_queue = update

-- What holds of the new queue and of the old other ones holds of all.
pub by_queue :
    (P : ℕ → List ℕ → Type 0) (act : ℕ → List ℕ) (k : ℕ) (xs : List ℕ)
    → P k xs
    → ((i : ℕ) → k ≢ i → P i (act i))
    → (i : ℕ) → P i (with_queue act k xs i)
by_queue P act k xs own other i = elim (Bool-cases (k == i)) [
  | inl e ↦ rw e (subst (λ j. P j xs) (ground arith) own)
  | inr n ↦ rw n (other i (ground arith))
]

module _ (c : Sched) (p : ℕ) where
  remove-JoinedAt : (a : ℕ) → a ≢ p → JoinedAt c.tasks (sched_remove p c).tasks p a
  unfolding sched_remove join
  remove-JoinedAt a ne = ground arith

  -- What `sched_remove` leaves alone.
  pub remove-priority : (a : ℕ) → ((sched_remove p c).tasks a).priority ≡ (c.tasks a).priority
  unfolding sched_remove join
  remove-priority a = ground arith

  pub remove-state : (a : ℕ) → ((sched_remove p c).tasks a).state ≡ (c.tasks a).state
  unfolding sched_remove join
  remove-state a = ground arith

  remove-hd_blocked : (sched_remove p c).hd_blocked ≡ c.hd_blocked
  unfolding sched_remove join
  remove-hd_blocked = ground arith

  remove-hd_active :
      (i : ℕ)
      → (sched_remove p c).hd_active i ≡ (
          if (c.tasks p).priority == i
          then (if c.hd_active i == p then (c.tasks p).next else c.hd_active i)
          else c.hd_active i)
  unfolding sched_remove join
  remove-hd_active i = ground arith

  remove-cr_active :
      (i : ℕ)
      → (sched_remove p c).cr_active i ≡ (
          if (c.tasks p).priority == i
          then (if c.cr_active i == p then (c.tasks p).next else c.cr_active i)
          else c.cr_active i)
  unfolding sched_remove join
  remove-cr_active i = ground arith

-- A queue that holds no neighbour of the task taken out keeps its links.
spared :
    (ts us : ℕ → Tcb) (q hd x : ℕ) (xs : List ℕ)
    → ((a : ℕ) → a ≢ x → JoinedAt ts us x a)
    → Links ts q hd xs
    → has x xs ≡ false
    → (has (ts x).prev xs ≡ false) ⊎ ((ts x).prev ≡ 0)
    → (has (ts x).next xs ≡ false) ⊎ ((ts x).next ≡ 0)
    → Links us q hd xs
spared ts us q hd x xs u l out v n =
    Links-frame ts us q hd xs
      (SameLinks-Unlinked ts us x xs (Unlinked-of_all ts us x xs (λ a h ne. u a ne)) out v n) l

module _ {c : Sched} {act : ℕ → List ℕ} {blk : List ℕ} (v : Queued c act blk) (p k : ℕ)
    (here : has p (act k) ≡ true) where
  -- The neighbours of a task stand in its queue.
  active_next : ((c.tasks p).next ≡ 0) ⊎ (has (c.tasks p).next (act k) ≡ true)
  active_next = next-has c.tasks 0 (c.hd_active k) p (act k) (v.active k) here

  active_prev : ((c.tasks p).prev ≡ 0) ⊎ (has (c.tasks p).prev (act k) ≡ true)
  active_prev = ground (arith, prev-has c.tasks 0 (c.hd_active k) p (act k) (v.active k) here)

  other_queue : (i a : ℕ) → k ≢ i → has a (act k) ≡ true → has a (act i) ≡ false
  other_queue i a ne h = ground (arith, v.home i a, v.home k a)

  removed_own : Links (sched_remove p c).tasks 0 ((sched_remove p c).hd_active k) (remove p (act k))
  removed_own =
      let hd : (sched_remove p c).hd_active k
          ≡ (if c.hd_active k == p then (c.tasks p).next else c.hd_active k) =
        ground (arith, remove-hd_active c p k, v.home k p here) in
      rw hd (
        Links-Unlinked c.tasks (sched_remove p c).tasks p 0 (c.hd_active k) (act k)
          (Unlinked-of_all c.tasks (sched_remove p c).tasks p (act k)
            (λ a h ne. remove-JoinedAt c p a ne))
          (v.active k) (v.active_once k) (has-zero c.tasks 0 (c.hd_active k) (act k) (v.active k))
          here)

  removed_other :
      (i : ℕ) → k ≢ i → Links (sched_remove p c).tasks 0 ((sched_remove p c).hd_active i) (act i)
  removed_other i ne =
      let hd : (sched_remove p c).hd_active i ≡ c.hd_active i =
        ground (arith, remove-hd_active c p i, v.home k p here) in
      rw hd (
        spared c.tasks (sched_remove p c).tasks 0 (c.hd_active i) p (act i)
          (λ a ne'. remove-JoinedAt c p a ne') (v.active i) (other_queue i p ne here)
          (ground (arith, active_prev, other_queue i (c.tasks p).prev ne))
          (ground (arith, active_next, other_queue i (c.tasks p).next ne)))

  removed_blocked : Links (sched_remove p c).tasks 0 (sched_remove p c).hd_blocked blk
  removed_blocked = rw (remove-hd_blocked c p) (
      spared c.tasks (sched_remove p c).tasks 0 c.hd_blocked p blk
        (λ a ne'. remove-JoinedAt c p a ne') v.waiting (v.apart k p here)
        (ground (arith, active_prev, v.apart k (c.tasks p).prev))
        (ground (arith, active_next, v.apart k (c.tasks p).next)))

  left_queues : ℕ → List ℕ
  left_queues = with_queue act k (remove p (act k))

  left-has : (i a : ℕ) → has a (left_queues i) ≡ true → has a (act i) ≡ true
  unfolding left_queues
  left-has i a h = ground (arith, has-remove a p (act k))

  own_cursor :
      ((sched_remove p c).cr_active k ≡ 0)
      ⊎ (has ((sched_remove p c).cr_active k) (remove p (act k)) ≡ true)
  own_cursor = ground (
    arith,
    remove-cr_active c p k,
    v.home k p here,
    v.cursor k,
    active_next,
    next-ne c.tasks 0 (c.hd_active k) p (act k) (v.active k) (v.active_once k) here,
    has-remove_ne (c.tasks p).next p (act k),
    has-remove_ne (c.cr_active k) p (act k),
  )

  other_cursor :
      (i : ℕ)
      → k ≢ i
      → ((sched_remove p c).cr_active i ≡ 0) ⊎ (has ((sched_remove p c).cr_active i) (act i) ≡ true)
  other_cursor i ne = ground (arith, remove-cr_active c p i, v.home k p here, v.cursor i)

  -- `sched_remove` takes an active task out of its queue, and nothing else.
  pub sched_remove-Queued : Queued (sched_remove p c) (with_queue act k (remove p (act k))) blk
  unfolding left_queues
  sched_remove-Queued = record {
    active =
        by_queue (λ i xs. Links (sched_remove p c).tasks 0 ((sched_remove p c).hd_active i) xs) act
          k (remove p (act k)) removed_own removed_other;
    waiting = removed_blocked;
    active_once =
        by_queue (λ i xs. IsNodup xs) act k (remove p (act k))
          (remove-IsNodup p (act k) (v.active_once k)) (λ i ne. v.active_once i);
    blocked_once = v.blocked_once;
    home = λ i a h. rw (remove-priority c p a) (v.home i a (left-has i a h));
    apart = λ i a h. v.apart i a (left-has i a h);
    cursor =
        by_queue
          (λ i xs.
            ((sched_remove p c).cr_active i ≡ 0) ⊎ (has ((sched_remove p c).cr_active i) xs ≡ true))
          act k (remove p (act k)) own_cursor other_cursor;
  }
