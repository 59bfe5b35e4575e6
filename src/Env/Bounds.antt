-- ===== src/Env/Bounds.antt =====
-- The loop over the boot environment, src/core/env.c, ends, and what it leaves is in bounds.
use osz.Base.{
  ℕ, zero, suc, ◌≤◌, ◌≡◌, refl, not, ◌&&◌, ◌||◌, Option, some, List, [], ◌∷◌, ◌==◌, if◌then◌else◌,
  inl, inr, Bool-cases, drop, length, length-drop, arith,
}
use osz.Base.Text.{first_byte}
use osz.Env.Parse.{Env, Platform, ibmpc, acpi, begins, skip_line, platform_env}
use osz.Env.Values.{skip_line_shorter}
use osz.Env.Init.{block_comment, skip_comments, parse_key, init_loop, env_init, at_end}
use osz.Env.Keys.{IsBounded, parse_key-Good}

block_comment_shorter : (b : ℕ) (s : List ℕ) → length (block_comment b s) ≤ length s
unfolding block_comment
block_comment_shorter b [] = omega arith
block_comment_shorter b (c ∷ s) =
    elim (Bool-cases (not (c == 0) && not (b == 42) && not (c == 47))) [
      | inl e ↦ rw e (omega (arith, block_comment_shorter c s))
      | inr e ↦ rw e (omega arith)
    ]

line_comment : List ℕ → List ℕ
line_comment s = if begins 47 47 s || (first_byte s == 35) then skip_line s else s

skip_comments_shorter : (s : List ℕ) → length (skip_comments s) ≤ length s
unfolding skip_comments line_comment
skip_comments_shorter s =
    let first : length (line_comment s) ≤ length s =
      elim (Bool-cases (begins 47 47 s || (first_byte s == 35))) [
        | inl e ↦ rw e (skip_line_shorter s)
        | inr e ↦ rw e (omega arith)
      ] in
    elim (Bool-cases (begins 47 42 (line_comment s))) [
      | inl e ↦ rw e (
          omega (
            arith,
            first,
            block_comment_shorter 42 (drop 2 (line_comment s)),
            length-drop 2 (line_comment s),
          ))
      | inr e ↦ rw e first
    ]

at_end-Ends :
    (t : List ℕ) (e : Env) (o : Option Env)
    → IsBounded e
    → (1 ≤ length t → (e' : Env) × (o ≡ some e') × IsBounded e')
    → (e' : Env) × (at_end t (some e) o ≡ some e') × IsBounded e'
unfolding at_end
at_end-Ends [] e o v h = (e, refl, v)
at_end-Ends (c ∷ t) e o v h = h (omega arith)

init_loop_lem :
    (n : ℕ) (p : Platform) (junk : ℕ) (s : List ℕ) (e : Env)
    → length s ≤ n
    → IsBounded e
    → (e' : Env) × (init_loop n p junk s e ≡ some e') × IsBounded e'
unfolding init_loop
init_loop_lem n p junk [] e l v = (e, refl, v)
init_loop_lem zero p junk (c ∷ s) e l v = absurd (omega arith)
init_loop_lem (suc n) p junk (c ∷ s) e l v =
    let t = skip_comments (c ∷ s) in
    let short = skip_comments_shorter (c ∷ s) in
    let next =
      at_end-Ends t e (init_loop n p junk (parse_key p junk t e).0 (parse_key p junk t e).1) v (λ k.
        let (k', v') = parse_key-Good p junk t e k v in
        init_loop_lem n p junk (parse_key p junk t e).0 (parse_key p junk t e).1
          (omega (arith, l, short, k')) v') in
    elim (Bool-cases (c == 0)) [ inl z ↦ rw z (e, refl, v) | inr z ↦ rw z next ]

-- `env_init` of each platform returns, for any page, any earlier values with a clock source of at
-- most 3, and whatever its locals hold, and leaves 2 to 128 pages for memory fragments, 1 to 447
-- for message queues and 4 to 128 for the log, a time slice of 10 to 10000, a display of at most 3
-- and a clock source of at most 3.
pub env_init-IsBounded :
    (p : Platform) (junk : ℕ) (s : List ℕ) (e : Env)
    → e.clocksource ≤ 3
    → (e' : Env) × (env_init p junk s e ≡ some e') × IsBounded e'
unfolding env_init platform_env
env_init-IsBounded ibmpc junk s e h = init_loop_lem (length s) ibmpc junk s _ (omega arith) (
  (omega arith, omega arith),
  (omega arith, omega arith),
  (omega arith, omega arith),
  (omega arith, omega arith),
  omega arith,
  omega arith,
)
env_init-IsBounded acpi junk s e h = init_loop_lem (length s) acpi junk s _ (omega arith) (
  (omega arith, omega arith),
  (omega arith, omega arith),
  (omega arith, omega arith),
  (omega arith, omega arith),
  omega arith,
  h,
)
