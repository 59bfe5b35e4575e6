-- ===== src/Pmm/Tests.antt =====
-- Runs of pmm.c on small tables, and its theorems at these tables.
use osz.Base.{Option, ℕ, ◌+◌, ◌≡◌, ◌≤◌, ◌⊎◌, refl, true, false, none, some, List, [], ◌∷◌, arith}
use osz.Pmm.{
  Entry, Pmm, take_first, add_block, slot_above, holds_slot, below_slot, above_slot, take_slot,
  slot_result, alloc_from, pmm_alloc, pmm_allocslot, pmm_free, kalloc,
}
use osz.Pmm.Cover.{cover, total, IsValid}
use osz.Pmm.Alloc.{Outcome, pmm_alloc-Outcome}
use osz.Pmm.Free.{MayFree, FreeOutcome, pmm_free-Released, pmm_free-pmm_alloc}
use osz.Pmm.Kernel.{Grown, kalloc_lem}
use osz.Pmm.Slot.{SlotOutcome, pmm_allocslot-SlotOutcome, pmm_allocslot-leaks}

abbrev still : (ℕ → ℕ) → ℕ → ℕ
still r = r

abbrev entry : ℕ → ℕ → Entry
entry b n = record { base = b; size = n }

abbrev boot : List Entry → ℕ → Pmm
boot es n = record {
  entries = es;
  totalpages = 600;
  freepages = n;
  bss_end = 0x8000;
  nrphymax = 2;
  srand = λ _. 0;
  task_mapped = true;
  tmp2map = 0;
  wiped = [];
  mapped = [];
  warnings = 0;
  locked = false;
}

-- Three pages, and a whole slot.
abbrev two_areas : Pmm
two_areas = boot (entry 0x1000 3 ∷ entry 0x200000 512 ∷ []) 515

-- A page and the slot behind it.
abbrev tight : Pmm
tight = boot (entry 0x1ff000 513 ∷ []) 513

two_areas-IsValid : IsValid two_areas
unfolding cover total
two_areas-IsValid = record {
  fit = omega arith;
  disjoint = λ a. ground arith;
  counted = refl;
  bounded = omega arith;
  small = omega arith;
}

tight-IsValid : IsValid tight
unfolding cover total
tight-IsValid = record {
  fit = omega arith;
  disjoint = λ a. ground arith;
  counted = refl;
  bounded = omega arith;
  small = omega arith;
}

alloc_two : (pmm_alloc still 2 two_areas).0 ≡ some 0x1000
unfolding pmm_alloc alloc_from take_first
alloc_two = refl

alloc_many : (pmm_alloc still 4 two_areas).0 ≡ some 0x200000
unfolding pmm_alloc alloc_from take_first
alloc_many = refl

slot_second : (pmm_allocslot still two_areas).0 ≡ some 0x200000
unfolding pmm_allocslot slot_result take_slot holds_slot slot_above
slot_second = refl

abbrev entries_of : Option Pmm → Option (List Entry)
entries_of none = none
entries_of (some s) = some s.entries

free_merges :
    entries_of (pmm_free still 0x4000 1 two_areas) ≡ some (entry 0x1000 4 ∷ entry 0x200000 512 ∷ [])
unfolding pmm_free add_block
free_merges = refl

-- A table that has no room at all
free_behind : pmm_free still 0x5000 1 (record two_areas { nrphymax = 0 }) ≡ none
unfolding pmm_free add_block
free_behind = refl

pmm_alloc-Outcome_example : Outcome 2 two_areas (pmm_alloc still 2 two_areas)
pmm_alloc-Outcome_example = pmm_alloc-Outcome still 2 two_areas (omega arith) two_areas-IsValid

may_free : MayFree 0x5000 2 two_areas
unfolding cover
may_free = record {
  block = omega arith;
  pages = omega arith;
  owned = λ a. ground arith;
  room = omega arith;
}

pmm_free-Released_example : FreeOutcome 0x5000 2 two_areas (pmm_free still 0x5000 2 two_areas)
pmm_free-Released_example = pmm_free-Released still 0x5000 2 two_areas two_areas-IsValid may_free

abbrev taken : Pmm
taken = (pmm_alloc still 2 two_areas).1

pmm_free-pmm_alloc_example :
    (s : Pmm) × (pmm_free still 0x1000 2 taken ≡ some s)
    × ((a : ℕ) → cover a s.entries ≡ cover a two_areas.entries)
    × (s.freepages ≡ 515)
    × IsValid s
unfolding pmm_alloc alloc_from take_first
pmm_free-pmm_alloc_example =
    pmm_free-pmm_alloc still 2 0x1000 two_areas taken two_areas-IsValid (omega arith) (omega arith)
      (omega arith) refl

kalloc_lem_example :
    (1 ≤ 2)
    × (2 ≤ 512)
    × Grown 2 two_areas
        (elim (kalloc still 2 two_areas).0 [ none ↦ false | some _ ↦ true ])
        (kalloc still 2 two_areas).1
    × (((kalloc still 2 two_areas).0 ≡ none) ⊎ ((kalloc still 2 two_areas).0 ≡ some 0x8000))
kalloc_lem_example = kalloc_lem still 2 two_areas (omega arith) two_areas-IsValid

pmm_allocslot-SlotOutcome_example : SlotOutcome two_areas (pmm_allocslot still two_areas)
pmm_allocslot-SlotOutcome_example = pmm_allocslot-SlotOutcome still two_areas two_areas-IsValid

pmm_allocslot-leaks_example :
    ((pmm_allocslot still tight).0 ≡ some 0x200000)
    × (total (pmm_allocslot still tight).1.entries + 1 ≡ (pmm_allocslot still tight).1.freepages)
    × (¬ IsValid (pmm_allocslot still tight).1)
unfolding slot_above holds_slot above_slot below_slot
pmm_allocslot-leaks_example =
    pmm_allocslot-leaks still tight (entry 0x1ff000 513) [] tight-IsValid refl refl (omega arith)
      (omega arith)
