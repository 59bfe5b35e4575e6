-- ===== src/Pmm/Cover.antt =====
-- The abstract view of the table of free memory: how often an address is covered by its entries.
-- The view forgets the order of the entries and how the free memory is cut into them.
use osz.Base.{
  ℕ, zero, suc, add64, ◌+◌, ◌*◌, ◌%◌, ◌^◌, ◌≤◌, ◌<◌, ◌≡◌, ◌&&◌, List, [], ◌∷◌, ltb, leb, arith,
  if◌then◌else◌, Bool-cases, inl, inr,
}
use osz.Pmm.{page_size, Entry, Pmm, int_bytes, clear_pages, wipe_block, wipe_pages, wipe}

-- 1 if the address lies in the block of `n` pages at `b`, else 0.
abbrev pub within : (b n a : ℕ) → ℕ
within b n a = if leb b a && ltb a (b + n * page_size) then 1 else 0

-- How many entries cover the address.
unfoldable pub cover : ℕ → List Entry → ℕ
cover a [] = 0
cover a (e ∷ es) = within e.base e.size a + cover a es

-- The number of free pages in the table.
unfoldable pub total : List Entry → ℕ
total [] = 0
total (e ∷ es) = e.size + total es

-- A block of whole pages within the 52 bits of a physical address.
pub record Fits (b n : ℕ) : Type 0 where
  pub below_top : b + n * page_size < 2 ^ 52
  pub aligned : b % page_size ≡ 0

abbrev pub AllFit : List Entry → Type 0
AllFit [] = Unit {0}
AllFit (e ∷ es) = Fits e.base e.size × (0 < e.size) × AllFit es

-- The invariant of the manager: entries are not empty and stay in the address space, no address is
-- covered twice, and the counters agree with the table.
pub record IsValid (s : Pmm) : Type 0 where
  pub fit : AllFit s.entries
  pub disjoint : (a : ℕ) → cover a s.entries ≤ 1
  pub counted : s.freepages ≡ total s.entries
  pub bounded : s.freepages ≤ s.totalpages
  pub small : s.totalpages < 2 ^ 52

-- How many of the ranges that were cleared hold the address.
unfoldable pub wipes : ℕ → List (ℕ × ℕ) → ℕ
wipes a [] = 0
wipes a ((b, n) ∷ ws) = (if leb b a && ltb a (b + n) then 1 else 0) + wipes a ws

-- Clearing writes no part of the manager but the log and the window.
pub record SameTable (s s' : Pmm) : Type 0 where
  pub entries : s'.entries ≡ s.entries
  pub freepages : s'.freepages ≡ s.freepages
  pub totalpages : s'.totalpages ≡ s.totalpages
  pub locked : s'.locked ≡ s.locked
  pub bss_end : s'.bss_end ≡ s.bss_end
  pub mapped : s'.mapped ≡ s.mapped
  pub nrphymax : s'.nrphymax ≡ s.nrphymax

wipe_pages-SameTable : (n b : ℕ) (s : Pmm) → SameTable s (wipe_pages n b s)
unfolding wipe_pages
wipe_pages-SameTable zero b s = ground arith
wipe_pages-SameTable (suc n) b s = ground (
  arith,
  wipe_pages-SameTable n (add64 b page_size)
      (record s { tmp2map = b; wiped = (b, page_size) ∷ s.wiped }),
)

pub wipe-SameTable : (n b : ℕ) (s : Pmm) → SameTable s (wipe n b s)
unfolding wipe
wipe-SameTable n b s = ground (arith, wipe_pages-SameTable n b s)

wipes-wipe_pages :
    (n b : ℕ) (s : Pmm) (a : ℕ)
    → b + n * page_size < 2 ^ 64
    → wipes a (wipe_pages n b s).wiped ≡ wipes a s.wiped + within b n a
unfolding wipe_pages wipes
wipes-wipe_pages zero b s a h = ground arith
wipes-wipe_pages (suc n) b s a h = ground (
  arith,
  wipes-wipe_pages n (add64 b page_size)
      (record s { tmp2map = b; wiped = (b, page_size) ∷ s.wiped }) a (omega arith),
)

-- Exactly the addresses of the block are cleared, once each, whichever way the pages are reached.
pub wipes-wipe :
    (n b : ℕ) (s : Pmm) (a : ℕ)
    → b + n * page_size < 2 ^ 64
    → wipes a (wipe n b s).wiped ≡ wipes a s.wiped + within b n a
unfolding wipe wipes
wipes-wipe n b s a h = ground (arith, wipes-wipe_pages n b s a h)

clear_pages-SameTable : (n i b : ℕ) (s : Pmm) → SameTable s (clear_pages n i b s)
unfolding clear_pages
clear_pages-SameTable zero i b s = ground arith
clear_pages-SameTable (suc n) i b s =
    let p = add64 b (int_bytes i) in
    let same =
      clear_pages-SameTable n (i + 1) b
        (record s { tmp2map = p; wiped = (p, page_size) ∷ s.wiped }) in
    record {
      entries = same.entries;
      freepages = same.freepages;
      totalpages = same.totalpages;
      locked = same.locked;
      bss_end = same.bss_end;
      mapped = same.mapped;
      nrphymax = same.nrphymax;
    }

pub wipe_block-SameTable : (n b : ℕ) (s : Pmm) → SameTable s (wipe_block n b s)
unfolding wipe_block
wipe_block-SameTable n b s = ground (arith, clear_pages-SameTable n 0 b s)

-- The product of fewer than 2^19 pages does not overflow.
pub int_bytes_small : (n : ℕ) → n < 2 ^ 19 → int_bytes n ≡ n * page_size
int_bytes_small n h = ground arith

wipes-clear_pages :
    (n i b : ℕ) (s : Pmm) (a : ℕ)
    → i + n ≤ 2 ^ 19
    → b + (i + n) * page_size < 2 ^ 64
    → wipes a (clear_pages n i b s).wiped ≡ wipes a s.wiped + within (b + i * page_size) n a
unfolding clear_pages wipes
wipes-clear_pages zero i b s a l h = ground arith
wipes-clear_pages (suc n) i b s a l h =
    let p = add64 b (int_bytes i) in
    let e : p ≡ b + i * page_size = omega (arith, int_bytes_small i (omega arith)) in
    let ih =
      wipes-clear_pages n (i + 1) b (record s { tmp2map = p; wiped = (p, page_size) ∷ s.wiped }) a
        (omega arith) (omega arith) in
    ground (arith, ih, e)

-- Exactly the addresses of a block of fewer than 2^19 pages are cleared, once each.
pub wipes-wipe_block :
    (n b : ℕ) (s : Pmm) (a : ℕ)
    → n < 2 ^ 19
    → b + n * page_size < 2 ^ 64
    → wipes a (wipe_block n b s).wiped ≡ wipes a s.wiped + within b n a
unfolding wipe_block wipes
wipes-wipe_block n b s a l h = elim (Bool-cases s.task_mapped) [
  | inl t ↦ rw t (ground (arith, wipes-clear_pages n 0 b s a (omega arith) (omega arith)))
  | inr t ↦ rw t (ground (arith, int_bytes_small n l))
]
