-- ===== src/Fs/Tests.antt =====
-- Registering drivers on a small service.
use osz.Base.{◌≡◌, refl, true, none}
use osz.Base.Text.{codes, strcmp}
use osz.Fs.{Driver, Fs, driver_from, fsdrv_get}
use osz.Fs.Samples.{entry, memory_driver, service}
use osz.Fs.Drivers.{is_driver}

abbrev small : Fs
small = service (entry none 0 0)

abbrev other_driver : Driver
other_driver = record memory_driver { name = codes "fsz" }

no_fsz : fsdrv_get (codes "fsz") small ≡ none
unfolding fsdrv_get driver_from strcmp
no_fsz = refl

fsz_is_driver : is_driver other_driver ≡ true
unfolding strcmp
fsz_is_driver = refl
