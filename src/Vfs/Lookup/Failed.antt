-- ===== src/Vfs/Lookup/Failed.antt =====
-- A path that is not found, `lookup` of src/fs/vfs.c.
use osz.Paths.{Buffer, canonize}
use osz.Fcb.{fcb_get}
use mathlib.Core.Path.{subst}
use osz.Base.{
  ℕ, zero, suc, ◌≡◌, ◌≢◌, Bool, true, false, Option, none, some, List, [], ◌∷◌, ◌==◌, if◌then◌else◌,
  ◌⊎◌, inl, inr, Bool-cases, arith, drop, sym,
}
use osz.Vfs.{Vfs, fails}
use osz.Vfs.Located.{
  Located, success, noblock, notfound, fserror, updir, fileinpath, syminpath, unioninpath, nospace,
  World, link_path, can_grow, grow, mount_fs, find_mount,
}
use osz.Vfs.Lookup.{Found, finish, finish?, dispatch, ask_driver, locate_path, lookup_abs, lookup}

-- An error is set or a block is awaited, when there is no entry.
unfoldable pub Tells : Found → Type 0
Tells none = Unit {0}
Tells (some (none, v)) = (v.fs.errno ≢ 0) ⊎ (v.fs.ackdelayed ≡ true)
Tells (some (some i, v)) = Unit {0}

none-Tells : Tells none
unfolding Tells
none-Tells = tt

found-Tells : (i : ℕ) (v : Vfs) → Tells (some (some i, v))
unfolding Tells
found-Tells i v = tt

finish-Tells : (f : Option ℕ) (v : Vfs) → Tells (some (finish f v))
unfolding finish Tells
finish-Tells none v = elim (Bool-cases (v.fs.errno == 0)) [
  | inl e ↦ rw e (inl (λ h. absurd (ground arith)))
  | inr e ↦ rw e (inl (λ h. absurd (ground arith)))
]
finish-Tells (some i) v = tt

finish?-Tells : (r : Found) → Tells (finish? r)
unfolding finish?
finish?-Tells none = none-Tells
finish?-Tells (some (f, v)) = finish-Tells f v

-- A test and a choice give what both sides give.
elim-Tells {ℓ} :
    {A : Type ℓ} (o : Option A) (x : Found) (g : A → Found)
    → Tells x
    → ((a : A) → Tells (g a))
    → Tells (elim o [ none ↦ x | some a ↦ g a ])
elim-Tells none x g h k = h
elim-Tells (some a) x g h k = k a

-- So does a text in a buffer.
buffer-Tells :
    (b : Buffer) (x : Found) (g : List ℕ → Found)
    → Tells x
    → ((p : List ℕ) → Tells (g p))
    → Tells (elim b [ none ↦ none | some none ↦ x | some (some p) ↦ g p ])
buffer-Tells none x g h k = none-Tells
buffer-Tells (some none) x g h k = h
buffer-Tells (some (some p)) x g h k = k p

if-Tells : (b : Bool) (x y : Found) → Tells x → Tells y → Tells (if b then x else y)
if-Tells true x y h k = h
if-Tells false x y h k = k

dispatch-Tells :
    (w : World) (creat : Bool) (again : ℕ → List ℕ → Vfs → Found) (path abspath : List ℕ)
    (f : Option ℕ) (fs fd re : ℕ) (r : Located) (v : Vfs)
    → ((re' : ℕ) (p : List ℕ) (v' : Vfs) → Tells (again re' p v'))
    → Tells (dispatch w creat again path abspath f fs fd re r v)
unfolding dispatch
dispatch-Tells w creat again path abspath f fs fd re (success type inode filesize) v h =
    found-Tells _ _
dispatch-Tells w creat again path abspath f fs fd re notfound v h = finish-Tells f _
dispatch-Tells w creat again path abspath f fs fd re fserror v h = finish-Tells f _
dispatch-Tells w creat again path abspath f fs fd re noblock v h = finish-Tells f _
dispatch-Tells w creat again path abspath f fs fd re updir v h = finish-Tells f _
dispatch-Tells w creat again path abspath f fs fd re fileinpath v h = finish-Tells f _
dispatch-Tells w creat again path abspath f fs fd re (syminpath target rest) v h =
    buffer-Tells (link_path w abspath target rest) _ _ (finish-Tells f v) (λ p. h re (w.stale p) v)
dispatch-Tells w creat again path abspath none fs fd re (unioninpath members rest) v h =
    finish?-Tells _
dispatch-Tells w creat again path abspath (some i) fs fd re (unioninpath members rest) v h =
    finish-Tells (some i) _
dispatch-Tells w creat again path abspath f fs fd re (nospace inode) v h =
    if-Tells (can_grow w fs fd re inode v) _ _ (h inode path (grow w fs fd v)) (finish-Tells f _)

waiting : (v : Vfs) → v.fs.ackdelayed ≡ true → Tells (some (none, v))
unfolding Tells
waiting v e = inr e

awaited : (v : Vfs) (r : Found) → Tells r → Tells (if v.fs.ackdelayed then some (none, v) else r)
awaited v r h = elim (Bool-cases v.fs.ackdelayed) [
  | inl e ↦ subst (λ (b : Bool). Tells (if b then some (none, v) else r)) (sym e) (waiting v e)
  | inr e ↦ subst (λ (b : Bool). Tells (if b then some (none, v) else r)) (sym e) h
]

fails-Tells : (e : ℕ) (v : Vfs) → e ≢ 0 → Tells (some (fails e none v))
unfolding Tells
fails-Tells e v h = inl h

ask_driver-Tells :
    (w : World) (creat : Bool) (again : ℕ → List ℕ → Vfs → Found) (path abspath : List ℕ)
    (f : Option ℕ) (l fd re : ℕ) (o : Option (ℕ × Vfs))
    → ((re' : ℕ) (p : List ℕ) (v' : Vfs) → Tells (again re' p v'))
    → Tells (ask_driver w creat again path abspath f l fd re o)
unfolding ask_driver
ask_driver-Tells w creat again path abspath f l fd re none h = none-Tells
ask_driver-Tells w creat again path abspath f l fd re (some (fs, v)) h =
    let (answer, v') = w.locate fs fd (drop l abspath) creat v in
    if-Tells _ _ _ (fails-Tells 17 v (λ e. absurd (ground arith))) (
      if-Tells _ _ _ (fails-Tells 2 v (λ e. absurd (ground arith)))
        (awaited v' _ (dispatch-Tells w creat again path abspath f fs fd re answer v' h)))

locate_path-Tells :
    (w : World) (creat : Bool) (again : ℕ → List ℕ → Vfs → Found) (path abspath : List ℕ)
    (f : Option ℕ) (re : ℕ) (v : Vfs)
    → ((re' : ℕ) (p : List ℕ) (v' : Vfs) → Tells (again re' p v'))
    → Tells (locate_path w creat again path abspath f re v)
unfolding locate_path
locate_path-Tells w creat again path abspath f re v h =
    elim-Tells (find_mount v.fs.fcbs.fcb abspath v.mtab) _ _ none-Tells (λ r.
      let (m, (k, l)) = r in
      if-Tells _ _ _ none-Tells (
        if-Tells _ _ _ (fails-Tells 12 v (λ e. absurd (ground arith)))
          (ask_driver-Tells w creat again path abspath f l m.storage re (mount_fs w k m v) h)))

lookup_abs-Tells :
    (w : World) (creat : Bool) (again : ℕ → List ℕ → Vfs → Found) (path abspath : List ℕ) (re : ℕ)
    (v : Vfs)
    → ((re' : ℕ) (p : List ℕ) (v' : Vfs) → Tells (again re' p v'))
    → Tells (lookup_abs w creat again path abspath re v)
unfolding lookup_abs
lookup_abs-Tells w creat again path abspath re v h =
    if-Tells _ _ _ (fails-Tells 11 v (λ e. absurd (ground arith))) (
      elim-Tells (fcb_get abspath v.fs.fcbs) _ _
        (locate_path-Tells w creat again path abspath none re v h)
        (λ i.
          if-Tells _ _ _ (locate_path-Tells w creat again path abspath (some i) re v h)
            (found-Tells i v)))

-- When `lookup` returns no entry, an error is set or the driver waits for a block, whatever the
-- drivers answer and change.
pub lookup-Tells :
    (n : ℕ) (w : World) (re : ℕ) (path : List ℕ) (creat : Bool) (v : Vfs)
    → Tells (lookup n w re path creat v)
unfolding lookup
lookup-Tells zero w re path creat v = none-Tells
lookup-Tells (suc n) w re [] creat v = fails-Tells 5 v (λ e. absurd (ground arith))
lookup-Tells (suc n) w re (c ∷ path) creat v =
    buffer-Tells (canonize w.pathmax w.rootdir w.workdir (c ∷ path)) _ _
      (fails-Tells 11 v (λ e. absurd (ground arith)))
      (λ p.
        lookup_abs-Tells w creat (λ re' q v'. lookup n w re' q creat v') (c ∷ path) p re v
          (λ re' q v'. lookup-Tells n w re' q creat v'))
