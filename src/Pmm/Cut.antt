-- ===== src/Pmm/Cut.antt =====
-- What `cut_slot` does to a table: the slot, the entries around it, and the pages that are lost.
use osz.Base.{
  ℕ, ◌+◌, ◌*◌, ◌%◌, ◌≤◌, ◌<◌, ◌≡◌, ◌&&◌, ◌⊎◌, inl, inr, refl, true, false, not, List, [], ◌∷◌, ◌==◌,
  if◌then◌else◌, arith,
}
use osz.Pmm.{page_size, slot_size, Entry, slot_above, holds_slot, below_slot, above_slot, cut_slot}
use osz.Pmm.Cover.{within, cover, total, Fits, AllFit}

-- The pages below the slot, where the entry was split and its upper part is empty; else none.
abbrev pub lost_pages : Entry → ℕ
lost_pages e =
    if not (slot_above e.base == e.base) && ((above_slot e).size == 0) then below_slot e else 0

abbrev pub Has : Entry → List Entry → Type 0
Has f [] = ⊥
Has f (e ∷ es) = (f ≡ e) ⊎ Has f es

abbrev pub NoSlot : List Entry → Type 0
NoSlot [] = Unit {0}
NoSlot (e ∷ es) = (holds_slot e ≡ false) × NoSlot es

module _ (e : Entry) (es : List Entry) (f : Fits e.base e.size) (h : holds_slot e ≡ true) where
  slot_room :
      (e.base ≤ slot_above e.base) × (slot_above e.base + slot_size ≤ e.base + e.size * page_size)
  unfolding slot_above holds_slot below_slot above_slot
  slot_room = ground arith

  below_pages : below_slot e * page_size + e.base ≡ slot_above e.base
  unfolding slot_above holds_slot below_slot above_slot
  below_pages = ground (arith, slot_room)

  above_pages : (above_slot e).size + below_slot e + 512 ≡ e.size
  unfolding slot_above holds_slot below_slot above_slot
  above_pages = ground (arith, slot_room, below_pages)

  slot_aligned : slot_above e.base % slot_size ≡ 0
  unfolding slot_above
  slot_aligned = omega arith

  above_base : (above_slot e).base ≡ slot_above e.base + slot_size
  unfolding above_slot
  above_base = omega (arith, slot_room)

-- What cutting the first slot of the entry `f` does to a table.
pub record Cut (f : Entry) (es es' : List Entry) : Type 0 where
  pub found : Has f es
  pub slot : Fits (slot_above f.base) 512
  pub aligned : slot_above f.base % slot_size ≡ 0
  pub covers :
      (a : ℕ)
      → cover a es ≡ cover a es' + within (slot_above f.base) 512 a + within f.base (lost_pages f) a
  pub counts : total es ≡ total es' + 512 + lost_pages f
  pub fit : lost_pages f ≡ 0 → AllFit es'

module _ (e : Entry) (es : List Entry) (f : Fits e.base e.size) (h : holds_slot e ≡ true)
    (fs : AllFit es) where
  pub cut_slot-Cut : Cut e (e ∷ es) (cut_slot e es)
  unfolding cut_slot cover total
  cut_slot-Cut =
      let room = slot_room e es f h in
      let low = below_pages e es f h in
      let high = above_pages e es f h in
      let base = above_base e es f h in
      record {
        found = inl refl;
        slot = omega (arith, slot_aligned e es f h);
        aligned = slot_aligned e es f h;
        covers = λ a. ground arith;
        counts = ground arith;
        fit = λ z. ground arith;
      }

pub keep_head :
    {g : Entry} (e : Entry) {es es' : List Entry}
    → Fits e.base e.size
    → 0 < e.size
    → Cut g es es'
    → Cut g (e ∷ es) (e ∷ es')
unfolding cover total
keep_head e f p c = record {
  found = inr c.found;
  slot = c.slot;
  aligned = c.aligned;
  covers = λ a. omega (arith, c.covers a);
  counts = omega (arith, c.counts);
  fit = λ z. (f, p, c.fit z);
}
