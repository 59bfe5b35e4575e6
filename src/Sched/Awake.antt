-- ===== src/Sched/Awake.antt =====
-- `sched_awake`: a blocked task is linked into the queue of its priority first, and then taken out
-- of the blocked queue by the links that it had there.
use mathlib.Core.Path.{subst, ap, sym}
use osz.Base.{ℕ, ◌≡◌, ◌≢◌, ◌⊎◌, ◌∙◌, true, false, not, ◌&&◌, List, ◌∷◌, ◌==◌, if◌then◌else◌, arith}
use osz.Sched.{Sched, join, sched_add, pull_blocked}
use osz.Sched.Links.{
  has, remove, IsNodup, Links, Links-frame, head-has, next-has, next-ne, prev-has, has-remove,
  has-remove_self, remove-IsNodup, JoinedAt, Unlinked-of_all, Links-Unlinked, SameLinks-of_all,
  Links-push, has-zero,
}
use osz.Sched.Queues.{Queued, with_queue, by_queue}

module _ {c : Sched} {act : ℕ → List ℕ} {blk : List ℕ} (v : Queued c act blk) (p : ℕ)
    (here : has p blk ≡ true) where
  abbrev pub level : ℕ
  level = (c.tasks p).priority

  -- The state after both steps.
  abbrev pub pulled : Sched
  pulled = pull_blocked p (c.tasks p).next (c.tasks p).prev (sched_add p c)

  blocked_next : ((c.tasks p).next ≡ 0) ⊎ (has (c.tasks p).next blk ≡ true)
  blocked_next = next-has c.tasks 0 c.hd_blocked p blk v.waiting here

  blocked_prev : ((c.tasks p).prev ≡ 0) ⊎ (has (c.tasks p).prev blk ≡ true)
  blocked_prev = ground (arith, prev-has c.tasks 0 c.hd_blocked p blk v.waiting here)

  not_active : (i a : ℕ) → has a blk ≡ true → has a (act i) ≡ false
  not_active i a h = ground (arith, v.apart i a)

  nonzero : p ≢ 0
  nonzero = ground (arith, has-zero c.tasks 0 c.hd_blocked blk v.waiting)

  not_self : ((c.tasks p).next ≢ p) × ((c.tasks p).prev ≢ p)
  not_self =
      let n = next-ne c.tasks 0 c.hd_blocked p blk v.waiting v.blocked_once here in
      (n, ground (arith, prev-has c.tasks 0 c.hd_blocked p blk v.waiting here, n, nonzero))

  head_active : (c.hd_active level ≡ 0) ⊎ (has (c.hd_active level) blk ≡ false)
  head_active = ground (
    arith,
    head-has c.tasks 0 (c.hd_active level) (act level) (v.active level),
    v.apart level (c.hd_active level),
  )

  pulled-JoinedAt : (a : ℕ) → has a blk ≡ true → a ≢ p → JoinedAt c.tasks pulled.tasks p a
  unfolding pull_blocked join sched_add
  pulled-JoinedAt a h ne = ground (arith, head_active)

  pulled_waiting :
      Links pulled.tasks 0
        (if c.hd_blocked == p then (c.tasks p).next else c.hd_blocked)
        (remove p blk)
  pulled_waiting =
      Links-Unlinked c.tasks pulled.tasks p 0 c.hd_blocked blk
        (Unlinked-of_all c.tasks pulled.tasks p blk pulled-JoinedAt) v.waiting v.blocked_once
        (has-zero c.tasks 0 c.hd_blocked blk v.waiting) here

  -- The links of the task itself, and of the active tasks.
  pulled_self : ((pulled.tasks p).next ≡ c.hd_active level) × ((pulled.tasks p).prev ≡ 0)
  unfolding pull_blocked join sched_add
  pulled_self = ground (arith, not_self, head_active)

  pulled_at :
      (i a : ℕ)
      → has a (act i) ≡ true
      → ((pulled.tasks a).next ≡ (c.tasks a).next)
        × ((pulled.tasks a).prev
            ≡ (if (a == c.hd_active level) && not (a == 0) then p else (c.tasks a).prev))
  unfolding pull_blocked join sched_add
  pulled_at i a h = ground (arith, v.apart i a h, blocked_next, blocked_prev)

  pulled_own : Links pulled.tasks 0 p (p ∷ act level)
  pulled_own =
      Links-push c.tasks pulled.tasks p (c.hd_active level) (act level) (v.active level)
        (v.active_once level) (not_active level p here) nonzero pulled_self.1 pulled_self.0
        (λ a h. ground (
          arith,
          pulled_at level a h,
          has-zero c.tasks 0 (c.hd_active level) (act level) (v.active level),
        ))

  pulled_other : (i : ℕ) → level ≢ i → Links pulled.tasks 0 (c.hd_active i) (act i)
  pulled_other i ne =
      Links-frame c.tasks pulled.tasks 0 (c.hd_active i) (act i)
        (SameLinks-of_all c.tasks pulled.tasks (act i) (λ a h. ground (
          arith,
          pulled_at i a h,
          v.home i a h,
          v.home level (c.hd_active level),
          head-has c.tasks 0 (c.hd_active level) (act level) (v.active level),
        )))
        (v.active i)

  pulled-priority : (a : ℕ) → (pulled.tasks a).priority ≡ (c.tasks a).priority
  unfolding pull_blocked join sched_add
  pulled-priority a = ground arith

  pulled-hd_active : (i : ℕ) → pulled.hd_active i ≡ (if level == i then p else c.hd_active i)
  unfolding pull_blocked join sched_add
  pulled-hd_active i = ground arith

  pulled-heads :
      (pulled.cr_active ≡ c.cr_active)
      × (pulled.hd_blocked ≡ (if c.hd_blocked == p then (c.tasks p).next else c.hd_blocked))
  unfolding pull_blocked join sched_add
  pulled-heads = ground arith

  pub pulled-Queued : Queued pulled (with_queue act level (p ∷ act level)) (remove p blk)
  pulled-Queued = record {
    active =
        by_queue (λ i xs. Links pulled.tasks 0 (pulled.hd_active i) xs) act level (p ∷ act level)
          (let e : pulled.hd_active level ≡ p = ground (arith, pulled-hd_active level) in
            rw e pulled_own)
          (λ i ne.
            let e : pulled.hd_active i ≡ c.hd_active i = ground (arith, pulled-hd_active i) in
            rw e (pulled_other i ne));
    waiting = rw pulled-heads.1 pulled_waiting;
    active_once =
        by_queue (λ i xs. IsNodup xs) act level (p ∷ act level)
          (not_active level p here, v.active_once level) (λ i ne. v.active_once i);
    blocked_once = remove-IsNodup p blk v.blocked_once;
    home = λ i a h. pulled-priority a ∙ ground (arith, v.home i a);
    apart = λ i a h.
        ground (arith, v.apart i a, has-remove a p blk, has-remove_self p blk v.blocked_once);
    cursor =
        by_queue (λ i xs. (pulled.cr_active i ≡ 0) ⊎ (has (pulled.cr_active i) xs ≡ true)) act level
          (p ∷ act level)
          (subst (λ x. (x ≡ 0) ⊎ (has x (p ∷ act level) ≡ true))
            (ap (λ f. f level) (sym pulled-heads.0)) (ground (arith, v.cursor level)))
          (λ i ne. rw pulled-heads.0 (v.cursor i));
  }
