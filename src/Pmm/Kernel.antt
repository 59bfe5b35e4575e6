-- ===== src/Pmm/Kernel.antt =====
-- `kalloc`: the pages that it maps for the core.
use osz.Base.{
  ℕ, zero, suc, ◌+◌, ◌*◌, ◌%◌, ◌^◌, ◌≤◌, ◌<◌, ◌≡◌, ◌⊎◌, refl, Bool, true, false, ltb, Option, none,
  some, List, [], ◌∷◌, length, inl, inr, if◌then◌else◌, arith,
}
use osz.Pmm.{page_size, Pmm, pmm_alloc, map_page, kalloc_pages, kalloc}
use osz.Pmm.Cover.{within, cover, IsValid}
use osz.Pmm.Alloc.{Allocated, Outcome, pmm_alloc-Outcome}

-- How many of the pages mapped hold the physical address.
unfoldable pub backs : ℕ → List (ℕ × ℕ) → ℕ
backs a [] = 0
backs a ((v, p) ∷ ms) = within p 1 a + backs a ms

-- The pages that a call of `kalloc` for `pages` asks for.
abbrev pub asked : ℕ → ℕ
asked pages = if ltb 512 pages then 512 else if ltb pages 1 then 1 else pages

-- What a run of the loop for `n` pages does, whether or not it gets to its end.
pub record Grown (n : ℕ) (s : Pmm) (done : Bool) (s' : Pmm) : Type 0 where
  pub valid : IsValid s'
  pub conserved :
      (a : ℕ) → cover a s'.entries + backs a s'.mapped ≡ cover a s.entries + backs a s.mapped
  pub counted : s'.freepages + length s'.mapped ≡ s.freepages + length s.mapped
  pub grown :
      done ≡ true
      → (length s'.mapped ≡ length s.mapped + n)
        × (s'.bss_end ≡ (s.bss_end + n * page_size) % 2 ^ 64)
  pub unlocked : done ≡ true → s.locked ≡ false → s'.locked ≡ false

map_page-Grown :
    {n b : ℕ} {s s' s'' : Pmm} {done : Bool}
    → Allocated 1 s b s'
    → Grown n (map_page b s') done s''
    → Grown (suc n) s done s''
unfolding backs
map_page-Grown a g = record {
  valid = g.valid;
  conserved = λ x. rw (← a.mapped) (omega (arith, g.conserved x, a.covers x));
  counted = rw (← a.mapped) (omega (arith, g.counted, a.freed));
  grown = λ d. rw (← a.mapped, ← a.bss_end) (omega (arith, g.grown d));
  unlocked = λ d k. g.unlocked d a.unlocked;
}

module _ (kentropy : (ℕ → ℕ) → ℕ → ℕ) where
  abbrev Runs : ℕ → Pmm → Bool × Pmm → Type 0
  Runs n s (done, s') = Grown n s done s'

  kalloc_pages-Grown :
      (n : ℕ) (s : Pmm) → s.bss_end < 2 ^ 64 → IsValid s → Runs n s (kalloc_pages kentropy n s)
  unfolding kalloc_pages
  kalloc_pages-Grown zero s h v = record {
    valid = v;
    conserved = λ a. refl;
    counted = refl;
    grown = λ _. omega arith;
    unlocked = λ _ k. k;
  }
  kalloc_pages-Grown (suc n) s h v =
      go (pmm_alloc kentropy 1 s) (pmm_alloc-Outcome kentropy 1 s (omega arith) v)
        (λ s' le valid. kalloc_pages-Grown n s' le valid)
    where
      go :
          (r : Option ℕ × Pmm)
          → Outcome 1 s r
          → ((s' : Pmm) → s'.bss_end < 2 ^ 64 → IsValid s' → Runs n s' (kalloc_pages kentropy n s'))
          → Runs
              (suc n)
              s
              (elim r.0 [ none ↦ (false, r.1) | some b ↦ kalloc_pages kentropy n (map_page b r.1) ])
      go (none, s') (l, e) next = rw e (record {
        valid = record {
          fit = v.fit;
          disjoint = v.disjoint;
          counted = v.counted;
          bounded = v.bounded;
          small = v.small;
        };
        conserved = λ a. refl;
        counted = refl;
        grown = λ d. cc;
        unlocked = λ d k. cc;
      })
      go (some b, s') a next =
          let valid : IsValid (map_page b s') = record {
            fit = a.valid.fit;
            disjoint = a.valid.disjoint;
            counted = a.valid.counted;
            bounded = a.valid.bounded;
            small = a.valid.small;
          } in
          map_page-Grown a (next (map_page b s') (omega arith) valid)

  -- `kalloc` asks for 1 to 512 pages. On a valid table every page that it takes from the free
  -- memory is mapped once and no other address changes hands, also when it runs out of memory;
  -- when it returns, the result is the old end of the core's memory, the new end lies that many
  -- pages further, that many pages are mapped more and the lock is free; the table stays valid.
  pub kalloc_lem :
      (pages : ℕ) (s : Pmm)
      → s.bss_end < 2 ^ 64
      → IsValid s
      → let (r, s') = kalloc kentropy pages s in
        (1 ≤ asked pages)
        × (asked pages ≤ 512)
        × Grown (asked pages) s (elim r [ none ↦ false | some _ ↦ true ]) s'
        × ((r ≡ none) ⊎ (r ≡ some s.bss_end))
  unfolding kalloc
  kalloc_lem pages s h v =
      go (kalloc_pages kentropy (asked pages) s) (kalloc_pages-Grown (asked pages) s h v)
    where
      go :
          (x : Bool × Pmm)
          → Runs (asked pages) s x
          → (1 ≤ asked pages)
            × (asked pages ≤ 512)
            × Grown
                (asked pages)
                s
                (elim (if x.0 then some s.bss_end else none) [ none ↦ false | some _ ↦ true ])
                x.1
            × (((if x.0 then some s.bss_end else none) ≡ none)
                ⊎ ((if x.0 then some s.bss_end else none) ≡ some s.bss_end))
      go (true, s') g = (ground arith, ground arith, g, inr refl)
      go (false, s') g = (ground arith, ground arith, g, inl refl)
