-- ===== src/Devfs/Oldest.antt =====
-- Which device `devfs_lastused` finds.
use osz.Base.{
  ℕ, zero, suc, ◌+◌, ◌≤◌, ◌≡◌, refl, ◌⊎◌, inl, inr, Bool, true, false, some, List, [], ◌∷◌,
  get_elem?, if◌then◌else◌, arith,
}
use mathlib.Core.Path.{subst}
use osz.Devfs.{Dev, Devs, is_older, oldest, devfs_lastused}

-- The device at an index of the list may be taken, and no other that may be is older.
abbrev pub IsOldest : Bool → ℕ → List Dev → ℕ → Type 0
IsOldest all k ds j =
    (d : Dev) × (get_elem? ds j ≡ some d)
    × (is_older all k d ≡ true)
    × ((i : ℕ) (e : Dev) → get_elem? ds i ≡ some e → is_older all k e ≡ true → d.recent ≤ e.recent)

-- No device may be taken.
abbrev pub HasNone : Bool → ℕ → List Dev → Type 0
HasNone all k ds = (i : ℕ) (e : Dev) → get_elem? ds i ≡ some e → is_older all k e ≡ false

-- What the loop finds: the oldest device that may be taken, or `l` when there is none.
abbrev Found : Bool → (k i l : ℕ) → List Dev → ℕ → Type 0
Found all k i l ds r = ((j : ℕ) × (r ≡ i + j) × IsOldest all k ds j) ⊎ ((r ≡ l) × HasNone all k ds)

-- What holds of the first device and of all others.
cons_all :
    (P : Dev → Type 0) (d : Dev) (ds : List Dev)
    → P d
    → ((i : ℕ) (e : Dev) → get_elem? ds i ≡ some e → P e)
    → (i : ℕ) (e : Dev) → get_elem? (d ∷ ds) i ≡ some e
    → P e
cons_all P d ds p h zero e g = subst P (ground arith) p
cons_all P d ds p h (suc i) e g = h i e g

-- A device in front that is taken, and what is found behind it.
Found-taken :
    (all : Bool) (k i l r : ℕ) (d : Dev) (ds : List Dev)
    → is_older all k d ≡ true
    → Found all d.recent (suc i) i ds r
    → Found all k i l (d ∷ ds) r
unfolding is_older
Found-taken all k i l r d ds o (inl (j, q, (e, g, u, m))) = inl (
  suc j,
  omega arith,
  (
    e,
    g,
    ground arith,
    cons_all (λ x. is_older all k x ≡ true → e.recent ≤ x.recent) d ds (λ w. ground arith)
        (λ b x h w. ground (arith, m b x h)),
  ),
)
Found-taken all k i l r d ds o (inr (q, n)) = inl (
  0,
  omega arith,
  (
    d,
    refl,
    o,
    cons_all (λ x. is_older all k x ≡ true → d.recent ≤ x.recent) d ds (λ w. omega arith)
        (λ b x h w. ground (arith, n b x h)),
  ),
)

-- A device in front that is passed over.
Found-passed :
    (all : Bool) (k i l r : ℕ) (d : Dev) (ds : List Dev)
    → is_older all k d ≡ false
    → Found all k (suc i) l ds r
    → Found all k i l (d ∷ ds) r
Found-passed all k i l r d ds o (inl (j, q, (e, g, u, m))) = inl (
  suc j,
  omega arith,
  (
    e,
    g,
    u,
    cons_all (λ x. is_older all k x ≡ true → e.recent ≤ x.recent) d ds (λ w. ground arith) m,
  ),
)
Found-passed all k i l r d ds o (inr (q, n)) =
    inr (q, cons_all (λ x. is_older all k x ≡ false) d ds o n)

Found-step :
    (all : Bool) (k i l r r' : ℕ) (d : Dev) (ds : List Dev) (b : Bool)
    → is_older all k d ≡ b
    → Found all d.recent (suc i) i ds r
    → Found all k (suc i) l ds r'
    → Found all k i l (d ∷ ds) (if b then r else r')
Found-step all k i l r r' d ds true o f f' = Found-taken all k i l r d ds o f
Found-step all k i l r r' d ds false o f f' = Found-passed all k i l r' d ds o f'

oldest-Found : (all : Bool) (i l k : ℕ) (ds : List Dev) → Found all k i l ds (oldest all i l k ds)
unfolding oldest
oldest-Found all i l k [] = inr (refl, λ a e h. ground arith)
oldest-Found all i l k (d ∷ ds) =
    Found-step all k i l (oldest all (suc i) i d.recent ds) (oldest all (suc i) l k ds) d ds
      (is_older all k d) refl (oldest-Found all (suc i) i d.recent ds)
      (oldest-Found all (suc i) l k ds)

-- `devfs_lastused` gives a device with the lowest counter among those that are registered, whose
-- counter is below that of the last use and, unless all are asked for, is not 0; or it gives 0 and
-- there is no such device.
pub devfs_lastused-IsOldest :
    (all : Bool) (s : Devs)
    → let (l, s') = devfs_lastused all s in
      IsOldest all s.dev_recent s.dev l ⊎ ((l ≡ 0) × HasNone all s.dev_recent s.dev)
unfolding devfs_lastused
devfs_lastused-IsOldest all s = go (oldest-Found all 0 0 s.dev_recent s.dev)
  where
    go :
        Found all s.dev_recent 0 0 s.dev (oldest all 0 0 s.dev_recent s.dev)
        → IsOldest all s.dev_recent s.dev (oldest all 0 0 s.dev_recent s.dev)
          ⊎ ((oldest all 0 0 s.dev_recent s.dev ≡ 0) × HasNone all s.dev_recent s.dev)
    go (inl (j, q, o)) = inl (subst (IsOldest all s.dev_recent s.dev) (omega arith) o)
    go (inr p) = inr p
