-- ===== src/Paths/Tests.antt =====
-- Paths on concrete texts.
use osz.Base.{none, length, ◌≤◌, ◌<◌, ℕ, ◌≡◌, refl, some, List, [], ◌∷◌, arith}
use osz.Base.Text.{codes}
use osz.Numbers.{atoll, stdlib_dec, dec_loop}
use osz.Paths.{
  Buffer, in_buffer, start_size, overruns, with_slash, PathStack, pathcat, behind, getver, getoffs,
  skip_slashes, copy_name, copy_digits, version_part, offset_part, name_end, name_part, ends_joker,
  canon_step, canon_loop, drop_dots, canon_end, split_dev, canon_start, canonize,
}
use osz.Paths.Ends.{HasRoom, canonize_total}
use osz.Paths.Devices.{c_string, canonize_device}

-- The working directory is `/usr/`.
abbrev run : List ℕ → Buffer
run path = canonize 512 (codes "/") (codes "/usr/") path

canonize_plain : run (codes "a//b/./c") ≡ some (some (codes "/usr/a/b/c"))
unfolding canonize start_size in_buffer overruns with_slash canon_start split_dev canon_loop
    canon_step skip_slashes copy_name name_part name_end ends_joker canon_end drop_dots
canonize_plain = refl

canonize_version : run (codes "/a;-3#12/b") ≡ some (some (codes "/a;3#12"))
unfolding canonize start_size in_buffer overruns with_slash canon_start split_dev canon_loop
    canon_step skip_slashes copy_name name_part name_end ends_joker canon_end drop_dots version_part
    offset_part copy_digits
canonize_version = refl

-- A version at the end of a path is lost.
canonize_last_version : run (codes "/a;3") ≡ some (some (codes "/a"))
unfolding canonize start_size in_buffer overruns with_slash canon_start split_dev canon_loop
    canon_step skip_slashes copy_name name_part name_end ends_joker canon_end drop_dots version_part
    offset_part copy_digits
canonize_last_version = refl

getver_three : getver (codes "a;3#5") ≡ 3
unfolding getver behind
getver_three = refl

getoffs_five : getoffs (codes "a;3#5") ≡ 5
unfolding getoffs behind atoll stdlib_dec dec_loop
getoffs_five = refl

abbrev two_paths : PathStack
two_paths = (1, codes "a/b") ∷ (7, codes "c") ∷ []

abbrev usr : List ℕ
usr = codes "/usr"

-- Eight bytes do not leave room for the zero behind `/usr/lib`, nine do.
pathcat-usr : pathcat 9 usr (codes "lib") ≡ some (some (codes "/usr/lib"))
unfolding pathcat in_buffer
pathcat-usr = refl

pathcat_short : pathcat 8 usr (codes "lib") ≡ none
unfolding pathcat in_buffer
pathcat_short = refl

-- A buffer of nine bytes is too short for `/usr/a/b/c`.
canonize_short : canonize 9 (codes "/") (codes "/usr/") (codes "a//b/./c") ≡ none
unfolding canonize start_size in_buffer overruns with_slash canon_start split_dev canon_loop
    canon_step skip_slashes copy_name name_part name_end ends_joker canon_end drop_dots
canonize_short = refl

room : (path : List ℕ) → length path ≤ 100 → HasRoom 512 (codes "/") (codes "/usr/") path
room path h = record { for_dev = omega arith; for_root = omega arith; for_work = omega arith }

canonize_device_example :
    (out : List ℕ) × ((canonize 512 (codes "/") (codes "/usr/") (codes "disk1:/etc")
        ≡ some (some out))
      × (c_string out ≡ codes "/dev/"))
canonize_device_example =
    canonize_device 512 (codes "/") (codes "/usr/") (codes "disk1") (codes "/etc")
      (refl, (refl, (refl, (refl, (refl, tt))))) (λ e. absurd (ground arith))
      (room (codes "disk1:/etc") (omega arith))

canonize_total_example :
    (out : List ℕ) × (canonize 512 (codes "/") (codes "/usr/") (codes "/a;-3#12/b")
      ≡ some (some out))
    × (length out < 512)
canonize_total_example =
    canonize_total 512 (codes "/") (codes "/usr/") 47 (codes "a;-3#12/b")
      (room (codes "/a;-3#12/b") (omega arith))
