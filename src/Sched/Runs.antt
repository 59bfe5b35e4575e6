-- ===== src/Sched/Runs.antt =====
-- Runs of `sched_block`, `sched_awake` and `sched_hybernate`, as steps from one state to the next.
use osz.Base.{ℕ, ◌≡◌, ◌≢◌, ◌⊎◌, inl, inr, refl, true, List, ◌∷◌, ◌==◌, Bool-cases, arith}
use osz.Sched.{Sched, sched_hybernate, sched_block, sched_awake}
use osz.Sched.Links.{has, remove, has-remove_ne}
use osz.Sched.Queues.{with_queue}
use osz.Sched.Moves.{Queued-SameQueues}
use osz.Sched.Block.{Consistent, sched_block-Consistent, sched_awake-Consistent}

-- The task stands in some queue.
abbrev pub Stands : (ℕ → List ℕ) → List ℕ → ℕ → Type 0
Stands act blk a = (has a blk ≡ true) ⊎ ((i : ℕ) × (has a (act i) ≡ true))

-- One call: an active task is blocked, or a waiting task is hybernated or woken.
pub data Step (act : ℕ → List ℕ) (blk : List ℕ) (c : Sched)
    : (ℕ → List ℕ) → List ℕ → Sched → Type 0 where
  block :
      (p k : ℕ)
      → has p (act k) ≡ true
      → (c.tasks p).memroot ≢ c.idle_mapping
      → Step act blk c (with_queue act k (remove p (act k))) (p ∷ blk) (sched_block p c)
  hybernate : (p : ℕ) → has p blk ≡ true → Step act blk c act blk (sched_hybernate p c)
  awake :
      (p : ℕ)
      → has p blk ≡ true
      → Step act blk c
          (with_queue act (c.tasks p).priority (p ∷ act (c.tasks p).priority))
          (remove p blk)
          (sched_awake p c)

pub data Reach (act : ℕ → List ℕ) (blk : List ℕ) (c : Sched)
    : (ℕ → List ℕ) → List ℕ → Sched → Type 0 where
  here : Reach act blk c act blk c
  next :
      {act' act'' : ℕ → List ℕ} {blk' blk'' : List ℕ} {d e : Sched}
      → Reach act blk c act' blk' d
      → Step act' blk' d act'' blk'' e
      → Reach act blk c act'' blk'' e

hybernate-Consistent :
    {c : Sched} {act : ℕ → List ℕ} {blk : List ℕ} (p : ℕ)
    → Consistent c act blk
    → has p blk ≡ true
    → Consistent (sched_hybernate p c) act blk
unfolding sched_hybernate
hybernate-Consistent p v h = record {
  queued =
      Queued-SameQueues
        (record {
          nexts = λ a. ground arith;
          prevs = λ a. ground arith;
          priorities = λ a. ground arith;
          hd_active = refl;
          cr_active = refl;
          hd_blocked = refl;
        })
        v.queued;
  runs = λ i a k. ground (arith, v.runs i a, v.queued.apart i a);
  waits = λ a k. ground (arith, v.waits a);
}

Step-Consistent :
    {c d : Sched} {act act' : ℕ → List ℕ} {blk blk' : List ℕ}
    → Step act blk c act' blk' d
    → Consistent c act blk
    → Consistent d act' blk'
Step-Consistent (block p k h ne) v = sched_block-Consistent v p k h ne
Step-Consistent (hybernate p h) v = hybernate-Consistent p v h
Step-Consistent (awake p h) v = (sched_awake-Consistent v p h).0

Step-Stands :
    {c d : Sched} {act act' : ℕ → List ℕ} {blk blk' : List ℕ} (a : ℕ)
    → Step act blk c act' blk' d
    → Stands act blk a
    → Stands act' blk' a
Step-Stands a (block p k h ne) (inl s) = inl (ground arith)
Step-Stands {act} a (block p k h ne) (inr (i, s)) = elim (Bool-cases (a == p)) [
  | inl e ↦ inl (ground arith)
  | inr n ↦ inr (i, ground (arith, has-remove_ne a p (act k)))
]
Step-Stands a (hybernate p h) s = s
Step-Stands {c} {blk} a (awake p h) (inl s) = elim (Bool-cases (a == p)) [
  | inl e ↦ inr ((c.tasks p).priority, ground arith)
  | inr n ↦ inl (ground (arith, has-remove_ne a p blk))
]
Step-Stands a (awake p h) (inr (i, s)) = inr (i, ground arith)

-- After any number of such calls on consistent queues the queues are consistent, and every task
-- that stood in a queue stands in one.
pub Reach-Consistent :
    {act : ℕ → List ℕ} {blk : List ℕ} {c : Sched} {act' : ℕ → List ℕ} {blk' : List ℕ} {d : Sched}
    → Consistent c act blk
    → Reach act blk c act' blk' d
    → Consistent d act' blk' × ((a : ℕ) → Stands act blk a → Stands act' blk' a)
Reach-Consistent v here = (v, λ a s. s)
Reach-Consistent v (next r st) =
    let (w, keep) = Reach-Consistent v r in
    (Step-Consistent st w, λ a s. Step-Stands a st (keep a s))
