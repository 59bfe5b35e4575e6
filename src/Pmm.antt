-- ===== src/Pmm.antt =====
-- The physical memory manager, src/core/pmm.c: `pmm_alloc`, `pmm_allocslot`, `pmm_free`, `kalloc`.
-- The table `pmm.entries[0 .. pmm.size)` is a list, so a removal that the source writes as a loop
-- of copies is the removal of a list element. What a call does besides is kept in the state: the
-- `srand` words, the pages that were cleared, the window `tmp2map`, the lock, the warnings printed.
-- `kpanic` does not return: a call that ends there gives no address (`none`). So does `pmm_free` give
-- no state when it writes behind the pages of the table.
pub mod Cover
pub mod Alloc
pub mod Cut
pub mod Slot
pub mod Free
pub mod Kernel
mod Tests
use osz.Base.{
  ℕ, zero, suc, ◌+◌, ◌-◌, ◌*◌, ◌/◌, ◌%◌, bit_xor, Bool, true, false, not, Option, none, some, List,
  [], ◌∷◌, length, erase_idx, ltb, leb, ◌==◌, if◌then◌else◌, u64, add64, sub64, int_word,
}

-- `__PAGESIZE` and `__SLOTSIZE`
abbrev pub page_size : ℕ
page_size = 4096

abbrev pub slot_size : ℕ
slot_size = 4096 * 512

-- `pmm_entry_t`
pub record Entry : Type 0 where
  pub base : ℕ
  pub size : ℕ

-- `pmm_t`, the entropy words, and what the calls do to memory and to the page tables
pub record Pmm : Type 0 where
  pub entries : List Entry
  pub totalpages : ℕ
  pub freepages : ℕ
  pub bss_end : ℕ
  -- the boot option `nrphymax`, pages that the table may take
  pub nrphymax : ℕ
  pub srand : ℕ → ℕ
  -- whether a task control block is mapped at address 0
  pub task_mapped : Bool
  pub tmp2map : ℕ
  -- the physical address and length of each range cleared, the last one first
  pub wiped : List (ℕ × ℕ)
  -- the core pages mapped by `kalloc`, linear and physical, the last one first
  pub mapped : List (ℕ × ℕ)
  pub warnings : ℕ
  pub locked : Bool

-- `srand[k % 4] ^= v`
abbrev pub stir : ℕ → ℕ → (ℕ → ℕ) → ℕ → ℕ
stir k v r i = if i == k % 4 then bit_xor (r i) v else r i

-- `klockacquire(LOCK_PMM)`, `klockrelease(LOCK_PMM)`
abbrev pub acquire : Pmm → Pmm
acquire s = record s { locked = true }

abbrev pub release : Pmm → Pmm
release s = record s { locked = false }

-- The run-time assert prints a warning.
abbrev pub assert_free : Pmm → Pmm
assert_free s = if ltb s.totalpages s.freepages then record s { warnings = s.warnings + 1 } else s

-- Clearing a slot page by page through the window `tmp2map`.
unfoldable pub wipe_pages : ℕ → ℕ → Pmm → Pmm
wipe_pages zero b s = s
wipe_pages (suc n) b s =
    wipe_pages n (add64 b page_size) (record s { tmp2map = b; wiped = (b, page_size) ∷ s.wiped })

unfoldable pub wipe : ℕ → ℕ → Pmm → Pmm
wipe n b s =
    if s.task_mapped then wipe_pages n b s else record s { wiped = (b, n * page_size) ∷ s.wiped }

-- `n * __PAGESIZE` for an `int`. C leaves an overflow undefined; here the product wraps around.
abbrev pub int_bytes : ℕ → ℕ
int_bytes n = int_word (n * page_size)

-- The loop of `pmm_alloc` that clears page `i` and the `n - 1` behind it.
unfoldable pub clear_pages : (n i b : ℕ) → Pmm → Pmm
clear_pages zero i b s = s
clear_pages (suc n) i b s =
    let p = add64 b (int_bytes i) in
    clear_pages n (i + 1) b (record s { tmp2map = p; wiped = (p, page_size) ∷ s.wiped })

-- The block of `n` pages at `b` is cleared. The size that `kmemset` takes is an `int`.
unfoldable pub wipe_block : ℕ → ℕ → Pmm → Pmm
wipe_block n b s =
    if s.task_mapped then clear_pages n 0 b s else record s { wiped = (b, int_bytes n) ∷ s.wiped }

-- The loop of `pmm_alloc`: the index and the base of the first entry that is large enough, and the
-- table after the block was cut from its front. `pages` is an `int` that is not negative.
unfoldable pub take_first : ℕ → ℕ → List Entry → Option (ℕ × ℕ × List Entry)
take_first pages i [] = none
take_first pages i (e ∷ es) =
    let rest = take_first pages (i + 1) es in
    let e' : Entry = record { base = add64 e.base (int_bytes pages); size = sub64 e.size pages } in
    if leb pages e.size
    then some (i, e.base, if e'.size == 0 then es else e' ∷ es)
    else elim rest [ none ↦ none | some (k, b, es') ↦ some (k, b, e ∷ es') ]

-- The start of the first slot at or above an address.
unfoldable pub slot_above : ℕ → ℕ
slot_above base = u64 (add64 base (slot_size - 1) / slot_size * slot_size)

-- Whether the entry holds a whole slot.
unfoldable pub holds_slot : Entry → Bool
holds_slot e = leb (add64 (slot_above e.base) slot_size) (add64 e.base (e.size * page_size))

-- The part of the entry below the slot, in pages, and the entry above the slot.
unfoldable pub below_slot : Entry → ℕ
below_slot e = (slot_above e.base - e.base) / page_size

unfoldable pub above_slot : Entry → Entry
above_slot e = record {
  base = add64 (slot_above e.base) slot_size;
  size = sub64 e.size (below_slot e + slot_size / page_size);
}

-- The entry at the head of the table after its slot was cut out. When the upper part is empty, the
-- source removes the element at `i`, which after a split is the lower part.
unfoldable pub cut_slot : Entry → List Entry → List Entry
cut_slot e es =
    let upper = above_slot e in
    let split : List Entry =
      if slot_above e.base == e.base
      then upper ∷ es
      else record { base = e.base; size = below_slot e } ∷ upper ∷ es in
    if upper.size == 0 then erase_idx split 0 else split

-- The loop of `pmm_allocslot`. The last part of the result tells whether the table would have
-- outgrown its pages: then nothing is cut and the call panics.
unfoldable pub take_slot : (limit size i : ℕ) → List Entry → Option (ℕ × Entry × List Entry × Bool)
take_slot limit size i [] = none
take_slot limit size i (e ∷ es) =
    let rest = take_slot limit size (i + 1) es in
    if holds_slot e
    then (if not (slot_above e.base == e.base)
        then (if ltb (limit * page_size) ((size + 1) * 16)
            then some (i, e, e ∷ es, true)
            else some (i, e, cut_slot e es, false))
        else some (i, e, cut_slot e es, false))
    else elim rest [ none ↦ none | some (k, f, es', full) ↦ some (k, f, e ∷ es', full) ]

-- Where `pmm_free` adds the block: in front of an entry, behind one, or as a new entry.
unfoldable pub add_block : ℕ → ℕ → List Entry → List Entry
add_block base n [] = record { base = base; size = n } ∷ []
add_block base n (e ∷ es) =
    let rest = add_block base n es in
    if e.base == add64 base (n * page_size)
    then record { base = base; size = add64 e.size n } ∷ es
    else if add64 e.base (e.size * page_size) == base
    then record e { size = add64 e.size n } ∷ es
    else e ∷ rest

-- `kmap(pmm.bss_end, page)` and the step to the next linear page
abbrev pub map_page : ℕ → Pmm → Pmm
map_page b s = record s { mapped = (s.bss_end, b) ∷ s.mapped; bss_end = add64 s.bss_end page_size }

-- `kentropy` of libk.S stirs the words of `srand`; it is any function here.
module _ (kentropy : (ℕ → ℕ) → ℕ → ℕ) where
  -- The search and what follows it.
  unfoldable pub alloc_from : ℕ → Pmm → Option ℕ × Pmm
  alloc_from pages s = elim (take_first pages 0 s.entries) [
    | none ↦ (none, s)
    | some (i, b, es) ↦ (
      some b,
      release (
          wipe_block pages b (record s {
            entries = es;
            freepages = sub64 s.freepages pages;
            srand = kentropy (stir (i + 2) b (stir i (b / page_size) s.srand));
          })),
    )
  ]

  unfoldable pub pmm_alloc : ℕ → Pmm → Option ℕ × Pmm
  pmm_alloc pages s = alloc_from pages (assert_free (acquire s))

  -- What follows the search: the entry found, the new table, and whether it would be too large.
  unfoldable pub slot_result : Pmm → Option (ℕ × Entry × List Entry × Bool) → Option ℕ × Pmm
  slot_result s none = (none, s)
  slot_result s (some (i, e, es, full)) =
      let s₂ : Pmm = record s { srand = kentropy (stir (i + 3) e.base (stir i e.base s.srand)) } in
      if full then (none, s₂) else (
        some (slot_above e.base),
        release (
            wipe (slot_size / page_size) (slot_above e.base)
              (record s₂ { entries = es; freepages = sub64 s₂.freepages (slot_size / page_size) })),
      )

  unfoldable pub pmm_allocslot : Pmm → Option ℕ × Pmm
  unfolding slot_result
  pmm_allocslot s = slot_result (acquire s) (take_slot s.nrphymax (length s.entries) 0 s.entries)

  -- The source does not check that the table has room for a new entry; a write behind the pages of
  -- the table has no result (`none`).
  unfoldable pub pmm_free : ℕ → ℕ → Pmm → Option Pmm
  pmm_free base n s =
      let s₁ = acquire s in
      let es = add_block base n s₁.entries in
      if ltb (s₁.nrphymax * page_size) (length es * 16)
      then none
      else some (
          release (
            assert_free (record s₁ {
              entries = es;
              freepages = add64 s₁.freepages n;
              srand = kentropy (stir (n + 2) base (stir n base s₁.srand));
            })))

  -- The loop of `kalloc`: one page at a time, until memory runs out.
  unfoldable pub kalloc_pages : ℕ → Pmm → Bool × Pmm
  kalloc_pages zero s = (true, s)
  kalloc_pages (suc n) s =
      let (got, s') = pmm_alloc 1 s in
      elim got [ none ↦ (false, s') | some b ↦ kalloc_pages n (map_page b s') ]

  -- `pages` below 1 and above 512 are moved to these bounds.
  unfoldable pub kalloc : ℕ → Pmm → Option ℕ × Pmm
  kalloc pages s =
      let n = if ltb 512 pages then 512 else if ltb pages 1 then 1 else pages in
      let (done, s') = kalloc_pages n s in (if done then some s.bss_end else none, s')
