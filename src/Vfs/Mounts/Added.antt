-- ===== src/Vfs/Mounts/Added.antt =====
-- The result of `mtab_add` of src/fs/mtab.c.
use mathlib.Core.Path.{subst}
use osz.Base.{
  ℕ, zero, suc, ◌≡◌, refl, true, not, ◌&&◌, ◌||◌, Option, none, some, List, length, ◌==◌, if-all,
  elim-all,
}
use osz.Base.Text.{codes, first_byte}
use osz.Base.Errno.{einval}
use osz.Fs.{minus_one_16}
use osz.Vfs.{Vfs, Mount, fails, enodev}
use osz.Vfs.Kept.{Kept, KeptPair, fsdrv_detect-Kept}
use osz.Vfs.Located.{enofs}
use osz.Vfs.Mounts.{
  enotdir, fails_if_none, storage_entry, directory_entry, mount, mount_detected, mount_path_on,
  mtab_add,
}
use osz.Vfs.Mounts.Unique.{
  IsUnique, Extends, Extends-self, Extends-IsUnique, Extends-trans, mount-Extends,
}

-- What a call of `mtab_add` that returns leaves.
pub Added : Vfs → Option (ℕ × Vfs) → Type 0
Added v none = Unit {0}
Added v (some (r, v')) = (r ≡ minus_one_16) × (IsUnique v.mtab → Extends v.mtab v'.mtab)

none-Added : (v : Vfs) → Added v none
unfolding Added
none-Added v = tt

fails-Added : (e : ℕ) (v : Vfs) → Added v (some (fails e minus_one_16 v))
unfolding Added
fails-Added e v = (refl, λ u. Extends-self v.mtab u)

stay-Added : (v : Vfs) → Added v (some (minus_one_16, v))
unfolding Added
stay-Added v = (refl, λ u. Extends-self v.mtab u)

fails_if_none-Added : (e : ℕ) (v : Vfs) → Added v (some (fails_if_none e minus_one_16 v))
fails_if_none-Added e v =
    if-all (λ (x : ℕ × Vfs). Added v (some x)) (v.fs.errno == 0) (fails e minus_one_16 v)
      (minus_one_16, v) (fails-Added e v) (stay-Added v)

from-Added : (v w : Vfs) (r : Option (ℕ × Vfs)) → w.mtab ≡ v.mtab → Added w r → Added v r
unfolding Added
from-Added v w none e h = tt
from-Added v w (some (r, v')) e (a, f) =
    (a, subst (λ (ms : List Mount). IsUnique ms → Extends ms v'.mtab) e f)

mount-Added : (fd ff fs : ℕ) (v : Vfs) → Added v (some (minus_one_16, mount fd ff fs v))
unfolding Added
mount-Added fd ff fs v = (refl, mount-Extends fd ff fs v)

root-Added :
    (v v₁ : Vfs) (r : Option (ℕ × Vfs))
    → Added v (some (minus_one_16, v₁))
    → Added v₁ r
    → Added v (elim r [
      | none ↦ none
      | some (q, v₂) ↦ some (minus_one_16, record v₂ { rootmounted = true })
    ])
unfolding Added
root-Added v v₁ none h k = tt
root-Added v v₁ (some (q, v₂)) (a, f) (b, g) = (
  refl,
  λ u. Extends-trans v.mtab v₁.mtab v₂.mtab (f u) (g (Extends-IsUnique v.mtab v₁.mtab (f u))),
)

module _ (chain : ℕ) (zeroblk random : ℕ → List ℕ) where
  mount_detected-Added :
      (again : Vfs → Option (ℕ × Vfs)) (fd ff : ℕ) (v : Vfs) (r : Option (ℕ × Vfs))
      → Kept v r
      → ((w : Vfs) → Added w (again w))
      → Added v (mount_detected chain zeroblk random again fd ff r)
  unfolding mount_detected Kept KeptPair
  mount_detected-Added again fd ff v none k h = none-Added v
  mount_detected-Added again fd ff v (some (fs, w)) k h = from-Added v w _ k.0 (
      if-all (Added w) (fs == minus_one_16) _ _
        (if-all (Added w) (not w.rootmounted || (length w.mtab == 0)) _ _ (none-Added w)
          (fails-Added enofs w))
        (if-all (Added w) ((ff == 0) && not w.rootmounted) _ _
          (root-Added w (mount fd ff fs w) _ (mount-Added fd ff fs w) (h (mount fd ff fs w)))
          (mount-Added fd ff fs w)))

  mount_path_on-Added :
      (again : Vfs → Option (ℕ × Vfs)) (dev file : List ℕ) (v : Vfs)
      → ((w : Vfs) → Added w (again w))
      → Added v (mount_path_on chain zeroblk random again dev file v)
  unfolding mount_path_on
  mount_path_on-Added again dev file v h =
      if-all (Added v) ((first_byte dev == 0) || (first_byte file == 0)) _ _ (fails-Added einval v)
        (elim-all (Added v) (storage_entry dev v) _ _ (fails_if_none-Added enodev v) (λ fd.
          elim-all (Added v) (directory_entry file v) _ _ (fails_if_none-Added enotdir v) (λ ff.
            if-all (Added v)
              (((fd == ff) && v.rootmounted) || (not (ff == 0) && (length v.mtab == 0))) _ _
              (fails-Added einval v)
              (mount_detected-Added again fd ff v _ (fsdrv_detect-Kept chain zeroblk random fd v)
                h))))

  -- Whenever `mtab_add` returns, it returns -1, also when it mounted; and when no mount point had two
  -- mounts before, all keep their places and none has two afterwards.
  pub mtab_add-Added :
      (n : ℕ) (dev file : List ℕ) (v : Vfs) → Added v (mtab_add chain zeroblk random n dev file v)
  unfolding mtab_add
  mtab_add-Added zero dev file v = none-Added v
  mtab_add-Added (suc n) dev file v =
      mount_path_on-Added _ dev file v (mtab_add-Added n (codes "/dev/") (codes "/dev/"))
