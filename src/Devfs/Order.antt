-- ===== src/Devfs/Order.antt =====
-- What `devfs_used` does to the order in which devices were used.
use mathlib.Core.Path.{subst}
use osz.Base.{
  ◌↔◌, ℕ, zero, suc, ◌/◌, ◌^◌, ◌<◌, ◌≤◌, ◌≡◌, refl, sym, ap, ◌∙◌, ◌≢◌, inl, inr, Bool, true, false,
  Bool-cases, Option-cases, none, some, List, [], ◌∷◌, map, length, get_elem?, get_elem?-set_self,
  get_elem?-set_ne, ltb, ◌==◌, ==_iff, if◌then◌else◌, arith,
}
use osz.Devfs.{Dev, Devs, is_some, shrink, protect, touch, devfs_used}

-- No registered device has a counter above that of the last use.
pub record IsBounded (s : Devs) : Type 0 where
  pub bounded :
      (i : ℕ) (d : Dev)
      → get_elem? s.dev i ≡ some d
      → is_some d.fid ≡ true
      → d.recent ≤ s.dev_recent

pub length-map : (ds : List Dev) (f : Dev → Dev) → length (map f ds) ≡ length ds
length-map [] f = refl
length-map (d ∷ ds) f = ap suc (length-map ds f)

pub get_elem?-map :
    (ds : List Dev) (f : Dev → Dev) (i : ℕ)
    → get_elem? (map f ds) i ≡ (elim (get_elem? ds i) [ none ↦ none | some d ↦ some (f d) ])
get_elem?-map [] f i = refl
get_elem?-map (d ∷ ds) f zero = refl
get_elem?-map (d ∷ ds) f (suc i) = get_elem?-map ds f i

get_elem?-some : (ds : List Dev) (i : ℕ) → i < length ds → (d : Dev) × (get_elem? ds i ≡ some d)
get_elem?-some [] i h = ground arith
get_elem?-some (d ∷ ds) zero h = (d, refl)
get_elem?-some (d ∷ ds) (suc i) h = get_elem?-some ds i (omega arith)

-- A counter that is shrunk.
abbrev scaled : Bool → ℕ → ℕ
scaled b r = if b then suc (r / 2 ^ 48) else r

abbrev pub overflows : Devs → Bool
overflows s = ltb 0xFFFFFFFFFFFFFFF s.dev_recent

-- The registered devices after the overflow protection.
protect_lem :
    (s : Devs) (i : ℕ) (d : Dev)
    → get_elem? s.dev i ≡ some d
    → (e : Dev) × (get_elem? (protect s).dev i ≡ some e)
      × (e.fid ≡ d.fid)
      × (is_some d.fid ≡ true → e.recent ≡ scaled (overflows s) d.recent)
unfolding protect shrink
protect_lem s i d h = elim (Bool-cases (overflows s)) [
  | inl b ↦
      (shrink d, ground (arith, get_elem?-map s.dev shrink i), ground arith, λ w. ground arith)
  | inr b ↦ (d, ground arith, refl, λ w. ground arith)
]

protect-none : (s : Devs) (i : ℕ) → get_elem? s.dev i ≡ none → get_elem? (protect s).dev i ≡ none
unfolding protect
protect-none s i h = elim (Bool-cases (overflows s)) [
  | inl b ↦ ground (arith, get_elem?-map s.dev shrink i)
  | inr b ↦ ground arith
]

protect_recent :
    (s : Devs)
    → (protect s).dev_recent ≡ (if overflows s then s.dev_recent / 2 ^ 48 else s.dev_recent)
unfolding protect
protect_recent s = ground arith

length-protect : (s : Devs) → length (protect s).dev ≡ length s.dev
unfolding protect
length-protect s = elim (Bool-cases (overflows s)) [
  | inl b ↦ ground (arith, length-map s.dev shrink)
  | inr b ↦ ground arith
]

-- The result for an index in bounds.
devfs_used_lem :
    (idx : ℕ) (s : Devs)
    → idx < length s.dev
    → devfs_used idx s
      ≡ record { dev = touch idx (protect s); dev_recent = suc (protect s).dev_recent }
unfolding devfs_used
devfs_used_lem idx s h = ground arith

touch_self :
    (idx : ℕ) (s : Devs)
    → idx < length s.dev
    → (d : Dev) × (get_elem? (touch idx s) idx ≡ some d) × (d.recent ≡ suc s.dev_recent)
unfolding touch
touch_self idx s h =
    let (d, e) = get_elem?-some s.dev idx h in
    (
      record d { recent = suc s.dev_recent },
      ground (arith, get_elem?-set_self s.dev idx (record d { recent = suc s.dev_recent }) h),
      refl,
    )

touch_other : (idx i : ℕ) (s : Devs) → i ≢ idx → get_elem? (touch idx s) i ≡ get_elem? s.dev i
unfolding touch
touch_other idx i s h = elim (Option-cases (get_elem? s.dev idx)) [
  | inl e ↦ ground arith
  | inr (d, e) ↦ ground (
    arith,
    get_elem?-set_ne s.dev {i = idx} {j = i} (record d { recent = suc s.dev_recent })
        (λ q. h (sym q)),
  )
]

-- What of a counter decides about the order afterwards: all of it, or what is above its lower 48 bits
-- when the counters overflow.
abbrev pub rank : Devs → ℕ → ℕ
rank s r = if overflows s then r / 2 ^ 48 else r

scaled_iff :
    (b : Bool) (m n : ℕ)
    → (scaled b m ≤ scaled b n) ↔ ((if b then m / 2 ^ 48 else m) ≤ (if b then n / 2 ^ 48 else n))
scaled_iff true m n = ground arith
scaled_iff false m n = ground arith

scaled_bound : (b : Bool) (m n : ℕ) → m ≤ n → scaled b m ≤ suc (if b then n / 2 ^ 48 else n)
scaled_bound true m n h = omega arith
scaled_bound false m n h = omega arith

-- Another device afterwards.
abbrev Scaled : Devs → Dev → Dev → Type 0
Scaled s d e = (e.fid ≡ d.fid) × (is_some d.fid ≡ true → e.recent ≡ scaled (overflows s) d.recent)

used_other :
    (idx i : ℕ) (s : Devs) (d : Dev)
    → idx < length s.dev
    → i ≢ idx
    → get_elem? s.dev i ≡ some d
    → (e : Dev) × (get_elem? (devfs_used idx s).dev i ≡ some e) × Scaled s d e
used_other idx i s d h ne g =
    let (e, p, q, r) = protect_lem s i d g in
    (
      e,
      ap (λ x. get_elem? x.dev i) (devfs_used_lem idx s h) ∙ touch_other idx i (protect s) ne ∙ p,
      (q, r),
    )

used_none :
    (idx i : ℕ) (s : Devs)
    → idx < length s.dev
    → i ≢ idx
    → get_elem? s.dev i ≡ none
    → get_elem? (devfs_used idx s).dev i ≡ none
used_none idx i s h ne g =
    ap (λ x. get_elem? x.dev i) (devfs_used_lem idx s h)
    ∙ touch_other idx i (protect s) ne
    ∙ protect-none s i g

used_self :
    (idx : ℕ) (s : Devs)
    → idx < length s.dev
    → (d : Dev) × (get_elem? (devfs_used idx s).dev idx ≡ some d)
      × (d.recent ≡ (devfs_used idx s).dev_recent)
used_self idx s h =
    let (d, e, r) = touch_self idx (protect s) (omega (arith, length-protect s)) in
    (
      d,
      ap (λ x. get_elem? x.dev idx) (devfs_used_lem idx s h) ∙ e,
      r ∙ sym (ap (λ x. x.dev_recent) (devfs_used_lem idx s h)),
    )

used_bounded :
    (idx i : ℕ) (s : Devs) (e : Dev)
    → idx < length s.dev
    → IsBounded s
    → get_elem? (devfs_used idx s).dev i ≡ some e
    → is_some e.fid ≡ true
    → e.recent ≤ (devfs_used idx s).dev_recent
used_bounded idx i s e h v g w = elim (Bool-cases (i == idx)) [
  | inl b ↦
      let (d, p, r) = used_self idx s h in
      ground
        (arith, subst (λ a. get_elem? (devfs_used idx s).dev a ≡ some e) ((==_iff i idx).0 b) g)
  | inr b ↦ elim (Option-cases (get_elem? s.dev i)) [
    | inl q ↦ ground (arith, used_none idx i s h (λ x. ground arith) q)
    | inr (d, q) ↦
        let (e', p, (f, r)) = used_other idx i s d h (λ x. ground arith) q in
        let same : e ≡ e' = ground (arith, sym g ∙ p) in
        let reg : is_some d.fid ≡ true =
          ap is_some (sym f) ∙ ap (λ x. is_some x.fid) (sym same) ∙ w in
        subst (λ x. x.recent ≤ (devfs_used idx s).dev_recent) (sym same)
          (omega (
            arith,
            r reg,
            scaled_bound (overflows s) d.recent s.dev_recent (v.bounded i d q reg),
            protect_recent s,
            ap (λ x. x.dev_recent) (devfs_used_lem idx s h),
          ))
  ]
]

-- The order of two other devices.
abbrev pub KeepsOrder : ℕ → Devs → Devs → Type 0
KeepsOrder idx s s' =
    (i j : ℕ) (d e : Dev)
    → i ≢ idx
    → j ≢ idx
    → get_elem? s.dev i ≡ some d
    → get_elem? s.dev j ≡ some e
    → is_some d.fid ≡ true
    → is_some e.fid ≡ true
    → (d' : Dev) × ((e' : Dev) × ((get_elem? s'.dev i ≡ some d')
          × (get_elem? s'.dev j ≡ some e')
          × (d'.fid ≡ d.fid)
          × (e'.fid ≡ e.fid)
          × ((d'.recent ≤ e'.recent) ↔ (rank s d.recent ≤ rank s e.recent))))

-- A use of a device of the table, where no registered device has a counter above that of the last
-- use, gives the device the counter of the last use; again no registered device has one above; and
-- two other registered devices are afterwards in the order of their counters, or, when the counters
-- overflow, exactly in the order of what is above the lower 48 bits of these.
pub devfs_used-KeepsOrder :
    (idx : ℕ) (s : Devs)
    → idx < length s.dev
    → IsBounded s
    → ((d : Dev) × (get_elem? (devfs_used idx s).dev idx ≡ some d)
        × (d.recent ≡ (devfs_used idx s).dev_recent))
      × (IsBounded (devfs_used idx s) × KeepsOrder idx s (devfs_used idx s))
devfs_used-KeepsOrder idx s h v = (
  used_self idx s h,
  (
    record { bounded = λ i e g w. used_bounded idx i s e h v g w },
    λ i j d e n n' g g' w w'.
        let (d', p, (f, r)) = used_other idx i s d h n g in
        let (e', p', (f', r')) = used_other idx j s e h n' g' in
        (d', (e', (p, p', f, f', rw (r w, r' w') (scaled_iff (overflows s) d.recent e.recent)))),
  ),
)
