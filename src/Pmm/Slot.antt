-- ===== src/Pmm/Slot.antt =====
-- `pmm_allocslot`: two megabytes at an address that they divide, cut out of one entry.
use mathlib.Core.Path.{subst}
use osz.Base.{
  ℕ, ◌+◌, ◌*◌, ◌%◌, ◌<◌, ◌≡◌, ◌⊎◌, inl, inr, refl, Bool, true, false, Option, none, some, List, [],
  ◌∷◌, length, ltb, ◌==◌, Bool-cases, arith,
}
use osz.Pmm.{
  page_size, slot_size, Entry, Pmm, slot_above, holds_slot, cut_slot, take_slot, stir, stir,
  slot_result, acquire, release, wipe, slot_result, acquire, release, wipe, pmm_allocslot,
}
use osz.Pmm.Cover.{within, cover, total, wipes, wipes-wipe, wipe-SameTable, AllFit, IsValid}
use osz.Pmm.Alloc.{after_take}
use osz.Pmm.Cut.{cut_slot-Cut, keep_head, Has, Cut, lost_pages, NoSlot}

-- The table has no room for one entry more.
abbrev pub IsFull : ℕ → ℕ → Type 0
IsFull limit size = limit * page_size < (size + 1) * 16

abbrev CutAs : (limit size : ℕ) → List Entry → Option (ℕ × Entry × List Entry × Bool) → Type 0
CutAs limit size es none = NoSlot es
CutAs limit size es (some (i, g, es', true)) = IsFull limit size
CutAs limit size es (some (i, g, es', false)) = Cut g es es'

take_slot-Cut :
    (limit size i : ℕ) (es : List Entry)
    → AllFit es
    → CutAs limit size es (take_slot limit size i es)
unfolding take_slot
take_slot-Cut limit size i [] fs = tt
take_slot-Cut limit size i (e ∷ es) (f, p, fs) = elim (Bool-cases (holds_slot e)) [
  | inl h ↦ rw h (elim (Bool-cases (slot_above e.base == e.base)) [
    | inl z ↦ rw z (cut_slot-Cut e es f h fs)
    | inr z ↦ rw z (elim (Bool-cases (ltb (limit * page_size) ((size + 1) * 16))) [
      | inl u ↦ rw u (ground arith)
      | inr u ↦ rw u (cut_slot-Cut e es f h fs)
    ])
  ])
  | inr h ↦ rw h (rest h (take_slot limit size (i + 1) es) (take_slot-Cut limit size (i + 1) es fs))
]
  where
    rest :
        holds_slot e ≡ false
        → (o : Option (ℕ × Entry × List Entry × Bool)) → CutAs limit size es o
        → CutAs limit size
            (e ∷ es)
            (elim o [ none ↦ none | some (k, g, es', full) ↦ some (k, g, e ∷ es', full) ])
    rest h none c = (h, c)
    rest h (some (k, g, es', true)) c = c
    rest h (some (k, g, es', false)) c = keep_head e f p c

take_slot_head :
    (limit size i : ℕ) (e : Entry) (es : List Entry)
    → holds_slot e ≡ true
    → ¬ IsFull limit size
    → take_slot limit size i (e ∷ es) ≡ some (i, e, cut_slot e es, false)
unfolding take_slot
take_slot_head limit size i e es h room = ground arith

-- A call that cut the slot at `b` out of the entry `g`.
pub record SlotCut (g : Entry) (s : Pmm) (b : ℕ) (s' : Pmm) : Type 0 where
  pub found : Has g s.entries
  pub first : b ≡ slot_above g.base
  pub aligned : b % slot_size ≡ 0
  pub covers :
      (a : ℕ)
      → cover a s.entries ≡ cover a s'.entries + within b 512 a + within g.base (lost_pages g) a
  pub freed : s'.freepages + 512 ≡ s.freepages
  pub counts : total s.entries ≡ total s'.entries + 512 + lost_pages g
  pub cleared : (a : ℕ) → wipes a s'.wiped ≡ wipes a s.wiped + within b 512 a
  pub valid : lost_pages g ≡ 0 → IsValid s'
  pub unlocked : s'.locked ≡ false

abbrev pub SlotOutcome : Pmm → Option ℕ × Pmm → Type 0
SlotOutcome s (none, s') =
    (s'.entries ≡ s.entries)
    × (s'.freepages ≡ s.freepages)
    × (NoSlot s.entries ⊎ IsFull s.nrphymax (length s.entries))
SlotOutcome s (some b, s') = (g : Entry) × SlotCut g s b s'

module _ (s : Pmm) (v : IsValid s) (g : Entry) (es : List Entry) (r : ℕ → ℕ)
    (c : Cut g s.entries es) where
  Cut-SlotCut :
      SlotCut g s
        (slot_above g.base)
        (release (wipe 512 (slot_above g.base) (after_take 512 es r (acquire s))))
  Cut-SlotCut =
      let s₂ = after_take 512 es r (acquire s) in
      let b = slot_above g.base in
      let same = wipe-SameTable 512 b s₂ in
      record {
        found = c.found;
        first = refl;
        aligned = c.aligned;
        covers = λ a. rw same.entries (c.covers a);
        freed = rw same.freepages (omega (arith, c.counts, v.counted));
        counts = rw same.entries c.counts;
        cleared = λ a. wipes-wipe 512 b s₂ a (omega (arith, c.slot.below_top));
        valid = λ z. record {
          fit = rw same.entries (c.fit z);
          disjoint = λ a. rw same.entries (omega (arith, c.covers a, v.disjoint a));
          counted = rw (same.entries, same.freepages) (omega (arith, c.counts, v.counted));
          bounded =
              rw (same.totalpages, same.freepages) (omega (arith, v.bounded, c.counts, v.counted));
          small = rw same.totalpages v.small;
        };
        unlocked = refl;
      }

module _ (kentropy : (ℕ → ℕ) → ℕ → ℕ) where
  -- On a valid table `pmm_allocslot` either returns a slot, 512 pages from an address that two
  -- megabytes divide, cut from an entry of the table: its addresses are free no more and are
  -- cleared, the counter drops by 512, the lock is released, every other address is as free as
  -- before and the table stays valid, except that the pages of the entry below the slot are lost
  -- too when the entry ends where the slot ends. Or it panics with the table and the counter
  -- unchanged, because no entry holds a slot or the table has no room for a split.
  pub pmm_allocslot-SlotOutcome : (s : Pmm) → IsValid s → SlotOutcome s (pmm_allocslot kentropy s)
  unfolding pmm_allocslot
  pmm_allocslot-SlotOutcome s v =
      go (take_slot s.nrphymax (length s.entries) 0 s.entries)
        (take_slot-Cut s.nrphymax (length s.entries) 0 s.entries v.fit)
    where
      go :
          (o : Option (ℕ × Entry × List Entry × Bool))
          → CutAs s.nrphymax (length s.entries) s.entries o
          → SlotOutcome s (slot_result kentropy (acquire s) o)
      go none c = (refl, refl, inl c)
      go (some (i, g, es, true)) c = (refl, refl, inr c)
      go (some (i, g, es, false)) c = (g, Cut-SlotCut s v g es _ c)

  -- When the first entry of a valid table holds a slot, begins before it and ends with it, and the
  -- table has room for one entry more, `pmm_allocslot` succeeds and its table is not valid any more:
  -- the pages of that entry below the slot are counted as free, but no entry holds them.
  pub pmm_allocslot-leaks :
      (s : Pmm) (e : Entry) (es : List Entry)
      → IsValid s
      → s.entries ≡ e ∷ es
      → holds_slot e ≡ true
      → 0 < lost_pages e
      → ¬ IsFull s.nrphymax (length s.entries)
      → let (r, s') = pmm_allocslot kentropy s in
        (r ≡ some (slot_above e.base))
        × (total s'.entries + lost_pages e ≡ s'.freepages)
        × (¬ IsValid s')
  unfolding pmm_allocslot
  pmm_allocslot-leaks s e es v h k lost room =
      let found : take_slot s.nrphymax (length s.entries) 0 s.entries
          ≡ some (0, e, cut_slot e es, false) =
        rw h (take_slot_head s.nrphymax (length (e ∷ es)) 0 e es k (λ full. room (rw h full))) in
      let cut : Cut e s.entries (cut_slot e es) =
        subst (λ o. CutAs s.nrphymax (length s.entries) s.entries o) found
          (take_slot-Cut s.nrphymax (length s.entries) 0 s.entries v.fit) in
      let c =
        Cut-SlotCut s v e (cut_slot e es) (kentropy (stir (0 + 3) e.base (stir 0 e.base s.srand)))
          cut in
      rw (found, slot_result)
        (
          refl,
          omega (arith, c.counts, c.freed, v.counted),
          λ bad. omega (arith, c.counts, c.freed, v.counted, bad.counted, lost),
        )
