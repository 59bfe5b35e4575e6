-- ===== src/Contexts/Hash.antt =====
-- How contexts are found in the hash table.
use osz.Base.{ℕ, suc, ◌%◌, ◌≡◌, ◌≢◌, refl, sym, ap, ◌∙◌, some, arith}
use osz.Contexts.{Ctx, Contexts, set_ctx, set_hash, find_ctx, open_more, add_ctx, taskctx_get}

open_more_ctx : (i k : ℕ) (s : Contexts) → (open_more i k s).ctx ≡ s.ctx
unfolding open_more
open_more_ctx i k s = ground arith

open_more_taskctx : (i k : ℕ) (s : Contexts) → (open_more i k s).taskctx ≡ s.taskctx
unfolding open_more
open_more_taskctx i k s = ground arith

-- The address that a new context gets.
add_ctx_result :
    (fresh : Ctx) (pid : ℕ) (s : Contexts)
    → add_ctx fresh pid s ≡ (s.malloc s.allocs, (add_ctx fresh pid s).1)
unfolding add_ctx
add_ctx_result fresh pid s = refl

-- The first context of the bucket after one was added.
added_first :
    (fresh : Ctx) (pid j : ℕ) (s : Contexts)
    → j ≡ pid % 256
    → (add_ctx fresh pid s).1.taskctx j ≡ s.malloc s.allocs
unfolding add_ctx
added_first fresh pid j s e =
    let p = s.malloc s.allocs in
    let s₁ = set_hash (pid % 256) p (set_ctx p (record fresh { pid = pid }) s) in
    ap (λ h. h j) (open_more_taskctx 0 2 s₁) ∙ ground arith

added_ctx :
    (fresh : Ctx) (pid : ℕ) (s : Contexts)
    → (add_ctx fresh pid s).1.ctx (s.malloc s.allocs) ≡ record fresh { pid = pid }
unfolding add_ctx
added_ctx fresh pid s =
    let p = s.malloc s.allocs in
    let s₁ = set_hash (pid % 256) p (set_ctx p (record fresh { pid = pid }) s) in
    ap (λ h. h p) (open_more_ctx 0 2 s₁) ∙ ground arith

-- A chain of one context.
find_ctx_hit :
    (n pid tc : ℕ) (ctx : ℕ → Ctx)
    → tc ≢ 0
    → (ctx tc).pid ≡ pid
    → find_ctx (suc n) pid tc ctx ≡ some tc
unfolding find_ctx
find_ctx_hit n pid tc ctx h e = ground arith

find_ctx_miss :
    (n pid tc : ℕ) (ctx : ℕ → Ctx)
    → tc ≢ 0
    → (ctx tc).pid ≢ pid
    → (ctx tc).next ≡ 0
    → find_ctx (suc (suc n)) pid tc ctx ≡ some 0
unfolding find_ctx
find_ctx_miss n pid tc ctx h e q = ground arith

-- A task without a context gets one, and the next call finds it, where `malloc` does not give NULL.
taskctx_get-taskctx_get :
    (fresh : Ctx) (n m pid : ℕ) (s : Contexts)
    → find_ctx n pid (s.taskctx (pid % 256)) s.ctx ≡ some 0
    → s.malloc s.allocs ≢ 0
    → (s' : Contexts) × (taskctx_get fresh n pid s ≡ some (s.malloc s.allocs, s'))
      × (taskctx_get fresh (suc m) pid s' ≡ some (s.malloc s.allocs, s'))
unfolding taskctx_get
taskctx_get-taskctx_get fresh n m pid s e h =
    let p = s.malloc s.allocs in
    let s' = (add_ctx fresh pid s).1 in
    (
      s',
      ground (arith, add_ctx_result fresh pid s),
      ground (
        arith,
        added_first fresh pid (pid % 256) s refl,
        find_ctx_hit m pid p s'.ctx h (ap (λ (c : Ctx). c.pid) (added_ctx fresh pid s)),
      ),
    )

-- When a task has a context, a call for another task of the same bucket that has none takes the
-- first one's context out of the table: the next call for the first task makes a new context. Memory
-- that `malloc` gives is taken to be cleared.
taskctx_get_lost :
    (fresh : Ctx) (n n' m pid pid' p : ℕ) (s : Contexts)
    → fresh.next ≡ 0
    → find_ctx n pid (s.taskctx (pid % 256)) s.ctx ≡ some p
    → p ≢ 0
    → find_ctx n' pid' (s.taskctx (pid' % 256)) s.ctx ≡ some 0
    → pid % 256 ≡ pid' % 256
    → pid' ≢ pid
    → s.malloc s.allocs ≢ 0
    → (s' : Contexts) × (taskctx_get fresh n pid s ≡ some (p, s))
      × (taskctx_get fresh n' pid' s ≡ some (s.malloc s.allocs, s'))
      × (taskctx_get fresh (suc (suc m)) pid s' ≡ some (add_ctx fresh pid s'))
unfolding taskctx_get
taskctx_get_lost fresh n n' m pid pid' p s z e h e' q d k =
    let a = s.malloc s.allocs in
    let s' = (add_ctx fresh pid' s).1 in
    let c = added_ctx fresh pid' s in
    (
      s',
      ground arith,
      ground (arith, add_ctx_result fresh pid' s),
      ground (
        arith,
        added_first fresh pid' (pid % 256) s q,
        find_ctx_miss m pid a s'.ctx k (λ w. d (sym (ap (λ (x : Ctx). x.pid) c) ∙ w))
            (ap (λ (x : Ctx). x.next) c ∙ z),
      ),
    )
