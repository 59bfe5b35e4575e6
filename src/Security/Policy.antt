-- ===== src/Security/Policy.antt =====
-- The policy behind `msg_allowed`, written as rules, and that the code decides it.
use osz.Base.Errno.{eperm}
use osz.Base.{ℕ, ◌≡◌, ◌≢◌, ◌⊎◌, ◌↔◌, refl, Bool, true, false, ◌==◌, if◌then◌else◌, arith}
use osz.Base.Text.{codes}
use osz.Security.{
  Sender, pri_sys, pri_drv, pri_srv, a_write, evt_func, is_root, may, core_allowed, fs_allowed,
  ui_allowed, to_srv, is_allowed, msg_allowed,
}

-- The service that a destination names, the first that fits: 0 is the core, and 8 stands for a task
-- that is no service.
unfoldable pub target : (ℕ → ℕ) → ℕ → ℕ
target services dest =
    if dest == 0
    then 0
    else if to_srv services dest 1
    then 1
    else if to_srv services dest 2
    then 2
    else if to_srv services dest 3
    then 3
    else if to_srv services dest 4
    then 4
    else if to_srv services dest 5
    then 5
    else if to_srv services dest 6
    then 6
    else if to_srv services dest 7
    then 7
    else 8

-- The answer and the error number tell the same.
decided :
    {D : Type 0} (ok : Bool) (errno : ℕ)
    → ((ok ≡ false) ↔ D)
    → (◌≡◌ {A = Bool × ℕ} (ok, if ok then errno else eperm) (false, eperm) ↔ D)
      × (◌≡◌ {A = Bool × ℕ} (ok, if ok then errno else eperm) (true, errno) ↔ (¬ D))
decided true errno i = ((λ e. cc, λ d. cc (i.1 d)), (λ e d. cc (i.1 d), λ n. refl))
decided false errno i = ((λ e. i.0 refl, λ d. refl), (λ e d. cc, λ n. absurd (n (i.0 refl))))

module _ (services : ℕ → ℕ) (s : Sender) where
  -- Only drivers set interrupt handlers; the clock is set by root, by drivers and with the right to
  -- write `stime`.
  abbrev pub CoreDenied : ℕ → Type 0
  CoreDenied e =
      ((e ≡ 5) × (s.priority ≢ pri_drv))
      ⊎ ((e ≡ 9)
          × (s.priority ≢ pri_drv)
          × (is_root s ≡ false)
          × (may s (codes "stime") a_write ≡ false))

  -- Only init mounts the file systems at boot, only drivers and services make devices or fill the
  -- cache; changing the root and mounting want root or the right.
  abbrev pub FsDenied : ℕ → Type 0
  FsDenied e =
      ((e ≡ 6) × (s.pid ≢ services 6))
      ⊎ (((e ≡ 10) ⊎ (e ≡ 4)) × (s.priority ≢ pri_drv) × (s.priority ≢ pri_srv))
      ⊎ ((e ≡ 37) × (is_root s ≡ false) × (may s (codes "chroot") a_write ≡ false))
      ⊎ (((e ≡ 7) ⊎ (e ≡ 8)) × (is_root s ≡ false) × (may s (codes "mount") a_write ≡ false))

  -- A task may be barred from the user interface; only the file system reports progress to it.
  abbrev pub UiDenied : ℕ → Type 0
  UiDenied e = (may s (codes "noui") 0 ≡ true) ⊎ ((e ≡ 30) × (s.pid ≢ services 1))

  core_allowed_iff : (e : ℕ) → (core_allowed s e ≡ false) ↔ CoreDenied e
  unfolding core_allowed
  core_allowed_iff e = ground arith

  fs_allowed_iff : (e : ℕ) → (fs_allowed services s e ≡ false) ↔ FsDenied e
  unfolding fs_allowed
  fs_allowed_iff e = ground arith

  ui_allowed_iff : (e : ℕ) → (ui_allowed services s e ≡ false) ↔ UiDenied e
  unfolding ui_allowed
  ui_allowed_iff e = ground arith

  -- Why a sender that is not of the system's own priority is refused.
  abbrev pub Denied : (dest e : ℕ) → Type 0
  Denied dest e =
      ((target services dest ≡ 0) × CoreDenied e)
      ⊎ ((target services dest ≡ 1) × FsDenied e)
      ⊎ ((target services dest ≡ 2) × UiDenied e)
      ⊎ ((target services dest ≡ 3) × (may s (codes "nosyslog") 0 ≡ true))
      ⊎ ((target services dest ≡ 4) × (may s (codes "noinet") 0 ≡ true))
      ⊎ ((target services dest ≡ 5) × (may s (codes "nosound") 0 ≡ true))
      ⊎ ((target services dest ≡ 6) × (may s (codes "noinit") 0 ≡ true))
      ⊎ ((target services dest ≡ 7) × (s.pid ≢ services 2))

  is_allowed_iff :
      (dest e : ℕ)
      → (is_allowed services s dest e ≡ false) ↔ ((s.priority ≢ pri_sys) × Denied dest e)
  unfolding is_allowed target
  is_allowed_iff dest e = ground (arith, core_allowed_iff e, fs_allowed_iff e, ui_allowed_iff e)

  -- `msg_allowed` refuses a message, with `EPERM`, exactly when the sender is not of the system's
  -- priority and a rule of the service that the destination names denies the event; otherwise it
  -- allows it and leaves the error number alone.
  pub msg_allowed_iff :
      (dest event errno : ℕ)
      → ((msg_allowed services s dest event errno ≡ (false, eperm))
          ↔ ((s.priority ≢ pri_sys) × Denied dest (evt_func event)))
        × ((msg_allowed services s dest event errno ≡ (true, errno))
            ↔ (¬ ((s.priority ≢ pri_sys) × Denied dest (evt_func event))))
  unfolding msg_allowed
  msg_allowed_iff dest event errno =
      decided (is_allowed services s dest (evt_func event)) errno
        (is_allowed_iff dest (evt_func event))
