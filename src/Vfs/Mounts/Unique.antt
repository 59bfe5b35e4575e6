-- ===== src/Vfs/Mounts/Unique.antt =====
-- The mount table after `mtab_add` of src/fs/mtab.c.
use mathlib.Core.Path.{subst}
use osz.Base.{
  some_inj, ℕ, zero, suc, ◌+◌, ◌≡◌, ◌≢◌, refl, ap, ◌∙◌, sym, Option, none, some, List, [], ◌∷◌,
  ◌++◌, length, set, get_elem?, ◌==◌, ◌⊎◌, inl, inr, Bool-cases, elim-all, arith, get_elem?-length,
  get_elem?-append_left,
}
use osz.Fcb.{Fcb}
use osz.Vfs.{Vfs, Mount, entry?}
use osz.Vfs.Mounts.{
  mount_index, update, open_entry, place_mount, replace_mount, mount_entry, mode_of, mount,
}

-- No mount point has two mounts.
pub IsUnique : List Mount → Type 0
IsUnique ms =
    (i j : ℕ) (m m' : Mount)
    → get_elem? ms i ≡ some m
    → get_elem? ms j ≡ some m'
    → m.mountpoint ≡ m'.mountpoint
    → i ≡ j

-- What the search finds is at its index, and when it finds nothing there is nothing.
mount_index-none :
    (ff i : ℕ) (ms : List Mount)
    → mount_index ff i ms ≡ none
    → (j : ℕ) (m : Mount) → get_elem? ms j ≡ some m
    → m.mountpoint ≢ ff
unfolding mount_index
mount_index-none ff i [] e j m g = absurd (ground arith)
mount_index-none ff i (x ∷ ms) e zero m g =
    λ h. absurd (ground (arith, ap (λ (n : Mount). n.mountpoint) (some_inj x m g), h))
mount_index-none ff i (x ∷ ms) e (suc j) m g = mount_index-none ff (suc i) ms (ground arith) j m g

mount_index-some :
    (ff i k : ℕ) (ms : List Mount)
    → mount_index ff i ms ≡ some k
    → (j : ℕ) × (k ≡ i + j) × ((m : Mount) × (get_elem? ms j ≡ some m) × (m.mountpoint ≡ ff))
unfolding mount_index
mount_index-some ff i k [] e = absurd (ground arith)
mount_index-some ff i k (x ∷ ms) e = elim (Bool-cases (x.mountpoint == ff)) [
  | inl b ↦ (zero, ground arith, (x, refl, ground arith))
  | inr b ↦
      let (j, a, r) = mount_index-some ff (suc i) k ms (ground arith) in
      (suc j, omega (arith, a), r)
]

append_at :
    (ms : List Mount) (x : Mount) (i : ℕ) (m : Mount)
    → get_elem? (ms ++ x ∷ []) i ≡ some m
    → (get_elem? ms i ≡ some m) ⊎ ((i ≡ length ms) × (x ≡ m))
append_at [] x zero m e = inr (refl, some_inj x m e)
append_at [] x (suc i) m e = inl e
append_at (y ∷ ms) x zero m e = inl e
append_at (y ∷ ms) x (suc i) m e = elim (append_at ms x i m e) [
  | inl a ↦ inl a
  | inr (a, b) ↦ inr (omega (arith, a), b)
]

append-IsUnique :
    (ms : List Mount) (x : Mount)
    → IsUnique ms
    → ((j : ℕ) (m : Mount) → get_elem? ms j ≡ some m → m.mountpoint ≢ x.mountpoint)
    → IsUnique (ms ++ x ∷ [])
unfolding IsUnique
append-IsUnique ms x u n i j m m' a b e = elim (append_at ms x i m a) [
  | inl p ↦ elim (append_at ms x j m' b) [
    | inl q ↦ u i j m m' p q e
    | inr (q, r) ↦ absurd (n i m p (e ∙ sym (ap (λ (y : Mount). y.mountpoint) r)))
  ]
  | inr (p, s) ↦ elim (append_at ms x j m' b) [
    | inl q ↦ absurd (n j m' q (sym e ∙ sym (ap (λ (y : Mount). y.mountpoint) s)))
    | inr (q, r) ↦ p ∙ sym q
  ]
]

set_at :
    (ms : List Mount) (k : ℕ) (x y : Mount) (i : ℕ) (m : Mount)
    → get_elem? ms k ≡ some y
    → y.mountpoint ≡ x.mountpoint
    → get_elem? (set ms k x) i ≡ some m
    → (o : Mount) × (get_elem? ms i ≡ some o) × (o.mountpoint ≡ m.mountpoint)
set_at [] k x y i m g q e = absurd (ground arith)
set_at (z ∷ ms) zero x y zero m g q e = (
  z,
  refl,
  ap (λ (n : Mount). n.mountpoint) (some_inj z y g)
      ∙ q
      ∙ ap (λ (n : Mount). n.mountpoint) (some_inj x m e),
)
set_at (z ∷ ms) zero x y (suc i) m g q e = (m, e, refl)
set_at (z ∷ ms) (suc k) x y zero m g q e = (m, e, refl)
set_at (z ∷ ms) (suc k) x y (suc i) m g q e = set_at ms k x y i m g q e

place :
    (ms : List Mount) (k : ℕ) (x y : Mount) (j : ℕ) (m : Mount)
    → get_elem? ms k ≡ some y
    → y.mountpoint ≡ x.mountpoint
    → get_elem? ms j ≡ some m
    → (m' : Mount) × (get_elem? (set ms k x) j ≡ some m') × (m'.mountpoint ≡ m.mountpoint)
place [] k x y j m g q e = absurd (ground arith)
place (z ∷ ms) zero x y zero m g q e =
    (x, refl, sym q ∙ ap (λ (n : Mount). n.mountpoint) (some_inj y m (sym g ∙ e)))
place (z ∷ ms) zero x y (suc j) m g q e = (m, e, refl)
place (z ∷ ms) (suc k) x y zero m g q e = (m, e, refl)
place (z ∷ ms) (suc k) x y (suc j) m g q e = place ms k x y j m g q e

set-IsUnique :
    (ms : List Mount) (k : ℕ) (x y : Mount)
    → IsUnique ms
    → get_elem? ms k ≡ some y
    → y.mountpoint ≡ x.mountpoint
    → IsUnique (set ms k x)
unfolding IsUnique
set-IsUnique ms k x y u g q i j m m' a b e =
    let (o, c, d) = set_at ms k x y i m g q a in
    let (o', c', d') = set_at ms k x y j m' g q b in u i j o o' c c' (d ∙ e ∙ sym d')

-- Every mount point of the table keeps its place in the other one, which has no mount point twice.
pub Extends : List Mount → List Mount → Type 0
Extends ms ms' =
    IsUnique ms'
    × ((j : ℕ) (m : Mount)
        → get_elem? ms j ≡ some m
        → (m' : Mount) × (get_elem? ms' j ≡ some m') × (m'.mountpoint ≡ m.mountpoint))

pub Extends-self : (ms : List Mount) → IsUnique ms → Extends ms ms
unfolding Extends
Extends-self ms u = (u, λ j m g. (m, g, refl))

pub Extends-IsUnique : (a b : List Mount) → Extends a b → IsUnique b
unfolding Extends
Extends-IsUnique a b (u, f) = u

pub Extends-trans : (a b c : List Mount) → Extends a b → Extends b c → Extends a c
unfolding Extends
Extends-trans a b c (u, f) (u', g) =
    (u', λ j m e. let (m', e', q) = f j m e in let (m'', e'', q') = g j m' e' in (m'', e'', q' ∙ q))

Extends-append :
    (ms : List Mount) (x : Mount)
    → IsUnique ms
    → mount_index x.mountpoint 0 ms ≡ none
    → Extends ms (ms ++ x ∷ [])
unfolding Extends
Extends-append ms x u n = (
  append-IsUnique ms x u (mount_index-none x.mountpoint 0 ms n),
  λ j m e. (m, get_elem?-append_left ms (x ∷ []) j (get_elem?-length ms j m e) ∙ e, refl),
)

Extends-set :
    (ms : List Mount) (k : ℕ) (x y : Mount)
    → IsUnique ms
    → get_elem? ms k ≡ some y
    → y.mountpoint ≡ x.mountpoint
    → Extends ms (set ms k x)
unfolding Extends
Extends-set ms k x y u g q = (set-IsUnique ms k x y u g q, λ j m e. place ms k x y j m g q e)

update-mtab : (i : ℕ) (g : Fcb → Fcb) (v : Vfs) → (update i g v).mtab ≡ v.mtab
unfolding update
update-mtab i g v = elim-all (λ (x : Vfs). x.mtab ≡ v.mtab) (entry? i v) v _ refl (λ f. refl)

place_mount-Extends :
    (m : Mount) (v : Vfs) (o : Option ℕ)
    → IsUnique v.mtab
    → mount_index m.mountpoint 0 v.mtab ≡ o
    → Extends v.mtab (place_mount o m v).mtab
unfolding place_mount replace_mount
place_mount-Extends m v none u e = Extends-append v.mtab m u e
place_mount-Extends m v (some i) u e =
    let (j, a, (y, g, q)) = mount_index-some m.mountpoint 0 i v.mtab e in
    let g' : get_elem? v.mtab i ≡ some y = ap (get_elem? v.mtab) (omega (arith, a)) ∙ g in
    subst (λ (o : Option Mount). Extends v.mtab (replace_mount i m v o).mtab) (sym g')
      (Extends-set v.mtab i m y u g' q)

-- `mount` keeps the mount points, and gives none two mounts.
pub mount-Extends :
    (fd ff fs : ℕ) (v : Vfs) → IsUnique v.mtab → Extends v.mtab (mount fd ff fs v).mtab
unfolding mount
mount-Extends fd ff fs v u =
    let m : Mount = record { mountpoint = ff; storage = fd; fstype = fs } in
    let v₁ = place_mount (mount_index ff 0 v.mtab) m v in
    let v₂ = update ff (mount_entry ff fd fs (mode_of fd v₁)) v₁ in
    subst (Extends v.mtab)
      (sym
        (update-mtab fd open_entry v₂ ∙ update-mtab ff (mount_entry ff fd fs (mode_of fd v₁)) v₁))
      (place_mount-Extends m v (mount_index ff 0 v.mtab) u refl)
