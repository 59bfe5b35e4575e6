-- ===== src/Devfs/Kinds.antt =====
-- A device that is used, `devfs_used` of src/fs/devfs.c, stays the same device.
use osz.Base.{
  ℕ, suc, ◌≡◌, refl, ap, ◌∙◌, Option, none, some, List, get_elem?, ltb, length, inl, inr,
  Bool-cases, get_elem?-set_self, get_elem?-length, lt→ltb, arith,
}
use osz.Devfs.{Dev, Devs, devfs_used, protect, shrink, touch, is_some}
use osz.Devfs.Order.{get_elem?-map}

-- At the index is a device with the same driver and number.
abbrev pub SameAt : List Dev → ℕ → Dev → Type 0
SameAt ds i d =
    (d' : Dev) × (get_elem? ds i ≡ some d')
    × ((d'.drivertask ≡ d.drivertask) × (d'.device ≡ d.device))

shrink_kind : (d : Dev) → ((shrink d).drivertask ≡ d.drivertask) × ((shrink d).device ≡ d.device)
unfolding shrink
shrink_kind d = elim (Bool-cases (is_some d.fid)) [
  | inl e ↦ rw e (refl, refl)
  | inr e ↦ rw e (refl, refl)
]

touch-SameAt : (s : Devs) (i : ℕ) (d : Dev) → SameAt s.dev i d → SameAt (touch i s) i d
unfolding touch
touch-SameAt s i d (d', e', k) = (
  record d' { recent = suc s.dev_recent },
  ground (
    arith,
    get_elem?-set_self s.dev i (record d' { recent = suc s.dev_recent })
        (get_elem?-length s.dev i d' e'),
  ),
  k,
)

protect-SameAt :
    (s : Devs) (i : ℕ) (d : Dev) → get_elem? s.dev i ≡ some d → SameAt (protect s).dev i d
unfolding protect shrink
protect-SameAt s i d e = elim (Bool-cases (ltb 0xFFFFFFFFFFFFFFF s.dev_recent)) [
  | inl b ↦ rw b (
    shrink d,
    get_elem?-map s.dev shrink i
        ∙ ap
            (λ (o : Option Dev). elim o as (λ x. Option Dev) [
              | none ↦ none
              | some x ↦ some (shrink x)
            ])
            e,
    shrink_kind d,
  )
  | inr b ↦ rw b (d, e, (refl, refl))
]

pub devfs_used-SameAt :
    (s : Devs) (i : ℕ) (d : Dev) → get_elem? s.dev i ≡ some d → SameAt (devfs_used i s).dev i d
unfolding devfs_used
devfs_used-SameAt s i d e =
    rw (lt→ltb i (length s.dev) (get_elem?-length s.dev i d e))
      (touch-SameAt (protect s) i d (protect-SameAt s i d e))
