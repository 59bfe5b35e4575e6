-- ===== src/Pmm/Free.antt =====
-- `pmm_free`, and its round trip with `pmm_alloc`.
use mathlib.Core.Path.{subst}
use osz.Base.{
  Option, none, ◌^◌, ltb→lt, length, ℕ, ◌+◌, ◌*◌, ◌≤◌, ◌<◌, ◌≡◌, refl, ◌∙◌, false, ltb, some, List,
  [], ◌∷◌, ◌==◌, Bool-cases, inl, inr, arith, add64,
}
use osz.Pmm.{page_size, Entry, Pmm, add_block, pmm_alloc, pmm_free}
use osz.Pmm.Cover.{within, cover, total, Fits, AllFit, IsValid}
use osz.Pmm.Alloc.{Allocated, Outcome, pmm_alloc-Outcome, length-add_block}

-- What adding a block does to a table.
record Added (base n : ℕ) (es es' : List Entry) : Type 0 where
  covers : (a : ℕ) → cover a es' ≡ cover a es + within base n a
  counts : total es' ≡ total es + n
  fit : AllFit es'

module _ (base n : ℕ) (b : Fits base n) (pos : 0 < n) where
  add_block-Added : (es : List Entry) → AllFit es → Added base n es (add_block base n es)
  unfolding add_block cover total
  add_block-Added [] fs = record {
    covers = λ a. ground arith;
    counts = omega arith;
    fit = (b, pos, tt);
  }
  add_block-Added (e ∷ es) (f, p, fs) = elim (Bool-cases (e.base == add64 base (n * page_size))) [
    | inl h ↦ rw h (record {
      covers = λ a. ground arith;
      counts = ground arith;
      fit = (ground arith, ground arith, fs);
    })
    | inr h ↦ rw h (elim (Bool-cases (add64 e.base (e.size * page_size) == base)) [
      | inl k ↦ rw k (record {
        covers = λ a. ground arith;
        counts = ground arith;
        fit = (ground arith, ground arith, fs);
      })
      | inr k ↦ rw k (record {
        covers = λ a. omega (arith, (add_block-Added es fs).covers a);
        counts = omega (arith, (add_block-Added es fs).counts);
        fit = (f, p, (add_block-Added es fs).fit);
      })
    ])
  ]

-- A block may be freed when it lies in the address space, none of it is free, and the counter stays
-- within the total.
pub record MayFree (base n : ℕ) (s : Pmm) : Type 0 where
  pub block : Fits base n
  pub pages : 0 < n
  pub owned : (a : ℕ) → cover a s.entries + within base n a ≤ 1
  pub room : s.freepages + n ≤ s.totalpages

pub record Released (base n : ℕ) (s s' : Pmm) : Type 0 where
  pub covers : (a : ℕ) → cover a s'.entries ≡ cover a s.entries + within base n a
  pub freed : s'.freepages ≡ s.freepages + n
  pub valid : IsValid s'
  pub quiet : s'.warnings ≡ s.warnings
  pub unlocked : s'.locked ≡ false

-- The result of a call: the block is free, or the table has no room for one more entry.
abbrev pub FreeOutcome : (base n : ℕ) (s : Pmm) → Option Pmm → Type 0
FreeOutcome base n s none = s.nrphymax * page_size < (length s.entries + 1) * 16
FreeOutcome base n s (some s') = Released base n s s'

module _ (kentropy : (ℕ → ℕ) → ℕ → ℕ) where
  free_room :
      (base n : ℕ) (s : Pmm)
      → length (add_block base n s.entries) * 16 ≤ s.nrphymax * page_size
      → (s' : Pmm) × (pmm_free kentropy base n s ≡ some s')
  unfolding pmm_free
  free_room base n s h =
      elim (Bool-cases (ltb (s.nrphymax * page_size) (length (add_block base n s.entries) * 16))) [
        | inl b ↦ absurd (ground arith)
        | inr b ↦ rw b (_, refl)
      ]

  -- `pmm_free` of a block that may be freed makes exactly the addresses of the block free, counts
  -- its pages, prints no warning, keeps the table valid and releases the lock; only where the pages
  -- of the table have no room for one more entry there may be no result.
  pub pmm_free-Released :
      (base n : ℕ) (s : Pmm)
      → IsValid s
      → MayFree base n s
      → FreeOutcome base n s (pmm_free kentropy base n s)
  unfolding pmm_free
  pmm_free-Released base n s v m =
      let es = add_block base n s.entries in
      let added = add_block-Added base n m.block m.pages s.entries v.fit in
      let sum : add64 s.freepages n ≡ s.freepages + n = omega (arith, v.small, m.room) in
      let quiet : ltb s.totalpages (add64 s.freepages n) ≡ false = ground (arith, m.room) in
      elim (Bool-cases (ltb (s.nrphymax * page_size) (length es * 16))) [
        | inl b ↦ rw b (
            omega (
              arith,
              ltb→lt (s.nrphymax * page_size) (length es * 16) b,
              length-add_block base n s.entries,
            ))
        | inr b ↦
            rw (b, quiet)
              (record {
                covers = added.covers;
                freed = sum;
                valid = record {
                  fit = added.fit;
                  disjoint = λ a. omega (arith, added.covers a, m.owned a);
                  counted = omega (arith, added.counts, v.counted);
                  bounded = omega (arith, m.room);
                  small = v.small;
                };
                quiet = refl;
                unlocked = refl;
              })
      ]

  allocated :
      (pages b : ℕ) (s s' : Pmm)
      → pages < 2 ^ 19
      → IsValid s
      → pmm_alloc kentropy pages s ≡ (some b, s')
      → Allocated pages s b s'
  allocated pages b s s' l v e = subst (Outcome pages s) e (pmm_alloc-Outcome kentropy pages s l v)

  -- On a valid table that has room for its entries, freeing the block that a call of `pmm_alloc` for
  -- 1 to 2^19 - 1 pages returned has a result and brings back the free memory from before the call:
  -- every address is free as often as then, the counter is as it was, and the table is valid. The
  -- table itself may be cut into other entries.
  pub pmm_free-pmm_alloc :
      (pages b : ℕ) (s s' : Pmm)
      → IsValid s
      → length s.entries * 16 ≤ s.nrphymax * page_size
      → 0 < pages
      → pages < 2 ^ 19
      → pmm_alloc kentropy pages s ≡ (some b, s')
      → (s'' : Pmm) × (pmm_free kentropy b pages s' ≡ some s'')
        × ((a : ℕ) → cover a s''.entries ≡ cover a s.entries)
        × (s''.freepages ≡ s.freepages)
        × IsValid s''
  pmm_free-pmm_alloc pages b s s' v fits pos l e =
      let a = allocated pages b s s' l v e in
      let m : MayFree b pages s' = record {
        block = a.block;
        pages = pos;
        owned = λ x. omega (arith, a.covers x, v.disjoint x);
        room = omega (arith, a.freed, v.bounded, a.capacity);
      } in
      let (s'', f) = free_room b pages s' (omega (arith, a.table, a.nrphymax)) in
      let r : Released b pages s' s'' =
        subst (FreeOutcome b pages s') f (pmm_free-Released b pages s' a.valid m) in
      (s'', f, λ x. omega (arith, r.covers x, a.covers x), r.freed ∙ a.freed, r.valid)
