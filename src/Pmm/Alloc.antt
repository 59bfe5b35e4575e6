-- ===== src/Pmm/Alloc.antt =====
-- `pmm_alloc`: the block that it returns leaves the free memory, and nothing else does.
use osz.Base.{
  length, ◌^◌, ℕ, ◌+◌, ◌/◌, ◌≤◌, ◌<◌, ◌≡◌, inl, inr, refl, false, Option, none, some, List, [], ◌∷◌,
  leb, ◌==◌, Bool-cases, arith, sub64, add64,
}
use osz.Pmm.{
  add_block, page_size, int_bytes, wipe_block, Entry, Pmm, acquire, release, assert_free, stir,
  take_first, pmm_alloc, alloc_from,
}
use osz.Pmm.Cover.{
  within, cover, total, Fits, AllFit, IsValid, wipes, wipe_block-SameTable, wipes-wipe_block,
  int_bytes_small,
}

pub length-add_block : (base n : ℕ) (es : List Entry) → length (add_block base n es) ≤ length es + 1
unfolding add_block
length-add_block base n [] = omega arith
length-add_block base n (e ∷ es) = ground (arith, length-add_block base n es)

-- What the loop leaves behind: the block comes from the table and the rest stays.
pub record Taken (pages b : ℕ) (es es' : List Entry) : Type 0 where
  pub covers : (a : ℕ) → cover a es ≡ cover a es' + within b pages a
  pub counts : total es ≡ total es' + pages
  pub fit : AllFit es'
  pub block : Fits b pages
  pub shorter : length es' ≤ length es
  -- The block can be given back into a table of the old length.
  pub table : length (add_block b pages es') ≤ length es

abbrev TakenAs : (pages : ℕ) → List Entry → Option (ℕ × ℕ × List Entry) → Type 0
TakenAs pages es none = Unit {0}
TakenAs pages es (some (i, b, es')) = Taken pages b es es'

module _ (pages : ℕ) (e : Entry) (es : List Entry) (f : Fits e.base e.size) (fs : AllFit es) where
  cut_whole : sub64 e.size pages ≡ 0 → pages ≤ e.size → Taken pages e.base (e ∷ es) es
  unfolding cover total add_block
  cut_whole z h = record {
    covers = λ a. ground arith;
    counts = omega arith;
    fit = fs;
    block = omega arith;
    shorter = omega arith;
    table = omega (arith, length-add_block e.base pages es);
  }

  cut_part :
      ((sub64 e.size pages == 0) ≡ false)
      → pages ≤ e.size
      → pages < 2 ^ 19
      → Taken pages e.base
          (e ∷ es)
          (record { base = add64 e.base (int_bytes pages); size = sub64 e.size pages } ∷ es)
  unfolding cover total add_block
  cut_part z h l = record {
    covers = λ a. ground (arith, int_bytes_small pages l);
    counts = omega arith;
    fit = (omega (arith, int_bytes_small pages l), ground arith, fs);
    block = omega arith;
    shorter = omega arith;
    table = ground (arith, int_bytes_small pages l);
  }

  keep_head :
      {b : ℕ} {es' : List Entry}
      → 0 < e.size
      → Taken pages b es es'
      → Taken pages b (e ∷ es) (e ∷ es')
  unfolding cover total add_block
  keep_head pos t = record {
    covers = λ a. omega (arith, t.covers a);
    counts = omega (arith, t.counts);
    fit = (f, pos, t.fit);
    block = t.block;
    shorter = omega (arith, t.shorter);
    table = ground (arith, t.table, t.shorter);
  }

take_first-Taken :
    (pages i : ℕ) (es : List Entry)
    → pages < 2 ^ 19
    → AllFit es
    → TakenAs pages es (take_first pages i es)
unfolding take_first
take_first-Taken pages i [] l fs = tt
take_first-Taken pages i (e ∷ es) l (f, pos, fs) = elim (Bool-cases (leb pages e.size)) [
  | inl h ↦ rw h (elim (Bool-cases (sub64 e.size pages == 0)) [
    | inl z ↦ rw z (cut_whole pages e es f fs (ground arith) (ground arith))
    | inr z ↦ rw z (cut_part pages e es f fs z (ground arith) l)
  ])
  | inr h ↦ rw h (rest (take_first pages (i + 1) es) (take_first-Taken pages (i + 1) es l fs))
]
  where
    rest :
        (o : Option (ℕ × ℕ × List Entry))
        → TakenAs pages es o
        → TakenAs pages (e ∷ es) (elim o [ none ↦ none | some (k, b, es') ↦ some (k, b, e ∷ es') ])
    rest none t = tt
    rest (some (k, b, es')) t = keep_head pages e es f fs pos t

-- The loop gives up only when no entry is large enough.
abbrev pub Largest : ℕ → List Entry → Type 0
Largest n [] = Unit {0}
Largest n (e ∷ es) = (e.size < n) × Largest n es

take_first-none : (pages i : ℕ) (es : List Entry) → take_first pages i es ≡ none → Largest pages es
unfolding take_first
take_first-none pages i [] h = tt
take_first-none pages i (e ∷ es) h = (ground arith, take_first-none pages (i + 1) es (ground arith))

-- A call that returned the block `b` and left the state `s'`.
pub record Allocated (pages : ℕ) (s : Pmm) (b : ℕ) (s' : Pmm) : Type 0 where
  pub covers : (a : ℕ) → cover a s.entries ≡ cover a s'.entries + within b pages a
  pub freed : s'.freepages + pages ≡ s.freepages
  pub block : Fits b pages
  pub table : length (add_block b pages s'.entries) ≤ length s.entries
  pub cleared : (a : ℕ) → wipes a s'.wiped ≡ wipes a s.wiped + within b pages a
  pub valid : IsValid s'
  pub unlocked : s'.locked ≡ false
  pub capacity : s'.totalpages ≡ s.totalpages
  pub bss_end : s'.bss_end ≡ s.bss_end
  pub mapped : s'.mapped ≡ s.mapped
  pub nrphymax : s'.nrphymax ≡ s.nrphymax

abbrev pub Outcome : ℕ → Pmm → Option ℕ × Pmm → Type 0
Outcome pages s (none, s') = Largest pages s.entries × (s' ≡ acquire s)
Outcome pages s (some b, s') = Allocated pages s b s'

-- The state after the entries, the counter and the entropy were written.
abbrev pub after_take : ℕ → List Entry → (ℕ → ℕ) → Pmm → Pmm
after_take pages es r s = record s { entries = es; freepages = sub64 s.freepages pages; srand = r }

pub Taken-Allocated :
    (pages b : ℕ) (s : Pmm) (es : List Entry) (r : ℕ → ℕ)
    → pages < 2 ^ 19
    → IsValid s
    → Taken pages b s.entries es
    → Allocated pages s b (release (wipe_block pages b (after_take pages es r (acquire s))))
Taken-Allocated pages b s es r l v t =
    let s₂ = after_take pages es r (acquire s) in
    let same = wipe_block-SameTable pages b s₂ in
    let left : sub64 s.freepages pages ≡ total es = omega (arith, t.counts, v.counted) in
    record {
      covers = λ a. rw same.entries (t.covers a);
      freed = rw same.freepages (omega (arith, t.counts, v.counted));
      block = t.block;
      table = rw same.entries t.table;
      cleared = λ a. wipes-wipe_block pages b s₂ a l (omega (arith, t.block.below_top));
      valid = record {
        fit = rw same.entries t.fit;
        disjoint = λ a. rw same.entries (omega (arith, t.covers a, v.disjoint a));
        counted = rw (same.entries, same.freepages) left;
        bounded =
            rw (same.totalpages, same.freepages) (omega (arith, v.bounded, t.counts, v.counted));
        small = rw same.totalpages v.small;
      };
      unlocked = refl;
      capacity = same.totalpages;
      bss_end = same.bss_end;
      mapped = same.mapped;
      nrphymax = same.nrphymax;
    }

no_warning : (s : Pmm) → IsValid s → assert_free (acquire s) ≡ acquire s
no_warning s v = ground (arith, v.bounded)

module _ (kentropy : (ℕ → ℕ) → ℕ → ℕ) where
  -- On a valid table, for fewer than 2^19 pages, `pmm_alloc` either returns a page aligned block that
  -- was free, is free no more and is cleared, while every other address is as free as before, the
  -- counter drops by the pages, the table stays valid, the mappings stay and the lock is released; or
  -- every entry is smaller than the request, and the call panics with nothing but the lock taken.
  pub pmm_alloc-Outcome :
      (pages : ℕ) (s : Pmm)
      → pages < 2 ^ 19
      → IsValid s
      → Outcome pages s (pmm_alloc kentropy pages s)
  unfolding pmm_alloc alloc_from
  pmm_alloc-Outcome pages s l v = rw (no_warning s v) (
      go (take_first pages 0 s.entries) (take_first-Taken pages 0 s.entries l v.fit)
        (take_first-none pages 0 s.entries))
    where
      go :
          (o : Option (ℕ × ℕ × List Entry))
          → TakenAs pages s.entries o
          → (o ≡ none → Largest pages s.entries)
          → Outcome pages s (elim o [
            | none ↦ (none, acquire s)
            | some (i, b, es) ↦ (
              some b,
              release (
                  wipe_block pages b (
                    after_take pages es
                      (kentropy (stir (i + 2) b (stir i (b / page_size) s.srand)))
                      (acquire s))),
            )
          ])
      go none t n = (n refl, refl)
      go (some (i, b, es)) t n = Taken-Allocated pages b s es _ l v t
