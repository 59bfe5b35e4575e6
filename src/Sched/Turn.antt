-- ===== src/Sched/Turn.antt =====
-- One turn of `sched_pick` over the queues: what it finds, and the cursors that it moves.
use mathlib.Core.Path.{subst}
use osz.Base.{
  ℕ, zero, suc, ◌+◌, ◌≤◌, ◌<◌, ◌≡◌, ◌≢◌, ◌⊎◌, inl, inr, refl, Bool, true, false, not, ◌&&◌, Option,
  none, some, ltb, leb, ◌==◌, Bool-cases, if◌then◌else◌, arith,
}
use osz.Sched.{Sched, update, pick_turn}

-- A turn over the queues from `i` up to `k` sets the cursors of those with tasks to their heads.
pub record Turned (c d : Sched) (i k : ℕ) : Type 0 where
  pub cursors :
      (j : ℕ)
      → d.cr_active j
        ≡ (if leb i j && ltb j k && not (c.hd_active j == 0) then c.hd_active j else c.cr_active j)
  pub tasks : d.tasks ≡ c.tasks
  pub hd_active : d.hd_active ≡ c.hd_active
  pub current : d.current ≡ c.current
  pub idle_mapping : d.idle_mapping ≡ c.idle_mapping

-- The queue is empty, or its cursor is at the end.
abbrev pub Over : Sched → ℕ → Type 0
Over c j = (c.hd_active j ≡ 0) ⊎ (c.cr_active j ≡ 0)

abbrev pub Turn : (n i : ℕ) → Bool → Sched → Option ℕ × Bool × Sched → Type 0
Turn n i b c (some k, m, d) =
    (i ≤ k)
    × (k < i + n)
    × (c.hd_active k ≢ 0)
    × (c.cr_active k ≢ 0)
    × ((j : ℕ) → i ≤ j → j < k → Over c j)
    × Turned c d i k
Turn n i b c (none, m, d) =
    ((j : ℕ) → i ≤ j → j < i + n → Over c j)
    × Turned c d i (i + n)
    × ((m ≡ true) ⊎ ((m ≡ false) × (b ≡ false) × ((j : ℕ) → i ≤ j → j < i + n → c.hd_active j ≡ 0)))
    × ((m ≡ false) ⊎ (b ≡ true) ⊎ ((j : ℕ) × (i ≤ j) × (j < i + n) × (c.hd_active j ≢ 0)))

Turned-skip : (n i k : ℕ) (c d : Sched) → c.hd_active i ≡ 0 → Turned c d (i + 1) k → Turned c d i k
Turned-skip n i k c d h t = record {
  cursors = λ j. ground (arith, t.cursors j);
  tasks = t.tasks;
  hd_active = t.hd_active;
  current = t.current;
  idle_mapping = t.idle_mapping;
}

Turned-rewind :
    (n i k : ℕ) (c d : Sched)
    → c.hd_active i ≢ 0
    → i < k
    → Turned (record c { cr_active = update c.cr_active i (c.hd_active i) }) d (i + 1) k
    → Turned c d i k
Turned-rewind n i k c d h lt t = record {
  cursors = λ j. ground (arith, t.cursors j);
  tasks = t.tasks;
  hd_active = t.hd_active;
  current = t.current;
  idle_mapping = t.idle_mapping;
}

Turned-end : (n i : ℕ) (c d : Sched) → Turned c d i (i + 1 + n) → Turned c d i (i + suc n)
Turned-end n i c d t =
    let e : i + 1 + n ≡ i + suc n = omega arith in subst (λ k. Turned c d i k) e t

Turn-skip :
    (n i : ℕ) (b : Bool) (c : Sched) (r : Option ℕ × Bool × Sched)
    → c.hd_active i ≡ 0
    → Turn n (i + 1) b c r
    → Turn (suc n) i b c r
Turn-skip n i b c (some k, m, d) h (le, lt, hd, cr, over, t) =
    (omega arith, omega arith, hd, cr, λ j u w. ground (arith, over j), Turned-skip n i k c d h t)
Turn-skip n i b c (none, m, d) h (over, t, all, some_) = (
  λ j u w. ground (arith, over j),
  Turned-end n i c d (Turned-skip n i (i + 1 + n) c d h t),
  elim all [ inl e ↦ inl e | inr (e, off, z) ↦ inr (e, off, λ j u w. ground (arith, z j)) ],
  elim some_ [
    | inl e ↦ inl e
    | inr (inl e) ↦ inr (inl e)
    | inr (inr (j, u, w, ne)) ↦ inr (inr (j, omega arith, omega arith, ne))
  ],
)

Turn-rewind :
    (n i : ℕ) (b : Bool) (c : Sched) (r : Option ℕ × Bool × Sched)
    → c.hd_active i ≢ 0
    → c.cr_active i ≡ 0
    → Turn n (i + 1) true (record c { cr_active = update c.cr_active i (c.hd_active i) }) r
    → Turn (suc n) i b c r
Turn-rewind n i b c (some k, m, d) h z (le, lt, hd, cr, over, t) = (
  omega arith,
  omega arith,
  hd,
  ground arith,
  λ j u w. ground (arith, over j),
  Turned-rewind n i k c d h (omega arith) t,
)
Turn-rewind n i b c (none, m, d) h z (over, t, all, some_) = (
  λ j u w. ground (arith, over j),
  Turned-end n i c d (Turned-rewind n i (i + 1 + n) c d h (omega arith) t),
  elim all [ inl e ↦ inl e | inr (e, off, z) ↦ cc ],
  inr (inr (i, omega arith, omega arith, h)),
)

pub pick_turn-Turn : (n i : ℕ) (b : Bool) (c : Sched) → Turn n i b c (pick_turn n i b c)
unfolding pick_turn
pick_turn-Turn zero i b c = (
  λ j u w. absurd (omega arith),
  record {
    cursors = λ j. ground arith;
    tasks = refl;
    hd_active = refl;
    current = refl;
    idle_mapping = refl;
  },
  elim (Bool-cases b) [ inl e ↦ inl e | inr e ↦ inr (e, e, λ j u w. absurd (omega arith)) ],
  elim (Bool-cases b) [ inl e ↦ inr (inl e) | inr e ↦ inl e ],
)
pick_turn-Turn (suc n) i b c = elim (Bool-cases (c.hd_active i == 0)) [
  | inl h ↦
      rw h
        (Turn-skip n i b c (pick_turn n (i + 1) b c) (ground arith) (pick_turn-Turn n (i + 1) b c))
  | inr h ↦ rw h (elim (Bool-cases (c.cr_active i == 0)) [
    | inl z ↦ rw z (
        Turn-rewind n i b c
          (pick_turn n (i + 1) true (record c { cr_active = update c.cr_active i (c.hd_active i) }))
          (ground arith) (ground arith)
          (pick_turn-Turn n (i + 1) true
            (record c { cr_active = update c.cr_active i (c.hd_active i) })))
    | inr z ↦ rw z (
      omega arith,
      omega arith,
      ground arith,
      ground arith,
      λ j u w. absurd (omega arith),
      record {
        cursors = λ j. ground arith;
        tasks = refl;
        hd_active = refl;
        current = refl;
        idle_mapping = refl;
      },
    )
  ])
]
