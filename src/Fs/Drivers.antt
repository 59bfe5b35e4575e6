-- ===== src/Fs/Drivers.antt =====
-- The registered drivers are found by their names.
use osz.Base.{
  ℕ, suc, ◌+◌, ◌-◌, ◌%◌, ◌^◌, ◌<◌, ◌≡◌, ap, ◌∙◌, Bool, true, not, ◌&&◌, ◌||◌, none, some, List, [],
  ◌∷◌, ◌++◌, length, ◌==◌, if◌then◌else◌, arith,
}
use osz.Base.Text.{codes, strcmp, strcmp_self}
use osz.Fs.{Driver, Fs, is_none, driver_from, fsdrv_reg, fsdrv_get}

driver_from-append :
    (name : List ℕ) (i : ℕ) (ds : List Driver) (d : Driver)
    → driver_from name i ds ≡ none
    → strcmp d.name name ≡ true
    → driver_from name i (ds ++ d ∷ []) ≡ some (i + length ds)
unfolding driver_from
driver_from-append name i [] d h e = ground arith
driver_from-append name i (x ∷ ds) d h e = ground (arith, driver_from-append name (suc i) ds d)

driver_from-append_old :
    (name : List ℕ) (i k : ℕ) (ds : List Driver) (d : Driver)
    → driver_from name i ds ≡ some k
    → driver_from name i (ds ++ d ∷ []) ≡ some k
unfolding driver_from
driver_from-append_old name i k [] d h = ground arith
driver_from-append_old name i k (x ∷ ds) d h =
    ground (arith, driver_from-append_old name (suc i) k ds d)

-- What `fsdrv_reg` may take: a driver with a name that can detect and locate, or that is the one for
-- devices.
abbrev pub is_driver : Driver → Bool
is_driver d =
    not (strcmp d.name [])
    && (strcmp d.name (codes "devfs") || (not (is_none d.detect) && d.has_locate))

-- `fsdrv_reg` of a proper driver under a new name, with no error pending and fewer than 65535
-- drivers, returns an index under which `fsdrv_get` finds the driver by its name, and every other
-- name is found where it was.
fsdrv_get-fsdrv_reg :
    (d : Driver) (s : Fs)
    → is_driver d ≡ true
    → s.errno ≡ 0
    → length s.fsdrv < 2 ^ 16 - 1
    → fsdrv_get d.name s ≡ none
    → (s' : Fs) × (fsdrv_reg d s ≡ some (length s.fsdrv, s'))
      × (fsdrv_get d.name s' ≡ some (length s.fsdrv))
      × ((name : List ℕ) (k : ℕ) → fsdrv_get name s ≡ some k → fsdrv_get name s' ≡ some k)
unfolding fsdrv_reg fsdrv_get
fsdrv_get-fsdrv_reg d s h e n f =
    let m : length s.fsdrv % 2 ^ 16 ≡ length s.fsdrv = omega arith in
    (
      record s {
        fsdrv = s.fsdrv ++ d ∷ [];
        devfsidx =
            if (s.devfsidx == 2 ^ 16 - 1) && strcmp d.name (codes "devfs")
            then length s.fsdrv % 2 ^ 16
            else s.devfsidx;
      },
      ground arith,
      driver_from-append d.name 0 s.fsdrv d f (strcmp_self d.name) ∙ ap some (omega arith),
      λ name k q. driver_from-append_old name 0 k s.fsdrv d q,
    )
