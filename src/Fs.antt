-- ===== src/Fs.antt =====
-- What the parts of the file system service share: the state that its functions read and write, and
-- the list of file system drivers of src/fs/fsdrv.c.
pub mod Drivers
pub mod Samples
mod Tests
use osz.Base.{
  ℕ, zero, suc, ◌+◌, ◌-◌, ◌%◌, ◌^◌, bit_and, bit_or, Bool, true, false, not, ◌&&◌, ◌||◌, Option,
  none, some, List, [], ◌∷◌, ◌++◌, length, get_elem?, set, ◌==◌, if◌then◌else◌,
}
use osz.Base.Text.{codes, strcmp}
use osz.Fcb.{Fcb, Fcbs}

-- The value -1 of an `fid_t` or another 64 bit word, and of a `uint16_t`.
abbrev pub minus_one : ℕ
minus_one = 2 ^ 64 - 1

abbrev pub minus_one_16 : ℕ
minus_one_16 = 2 ^ 16 - 1

-- Access modes
abbrev pub o_read : ℕ
o_read = 1

abbrev pub o_write : ℕ
o_write = 2

abbrev pub o_excl : ℕ
o_excl = 4

abbrev pub o_append : ℕ
o_append = 8

abbrev pub o_creat : ℕ
o_creat = 16

abbrev pub o_tmpfile : ℕ
o_tmpfile = 256

-- Whether a flag is set.
unfoldable pub has : (mode flag : ℕ) → Bool
has mode flag = not (bit_and mode flag == 0)

-- What a driver answers when it is asked for a part of a file: the block, or NULL; how many bytes
-- there are; and whether the block has to be fetched first (`ackdelayed`).
pub record Answer : Type 0 where
  pub blk : Option (List ℕ)
  pub size : ℕ
  pub delayed : Bool

-- `fsdrv_t`: a function that a driver leaves out is `none`. Drivers are other programs: what they
-- answer is any function of the device, the inode, the offset and the size.
pub record Driver : Type 0 where
  pub name : List ℕ
  pub detect : Option (ℕ → List ℕ → Bool)
  pub has_locate : Bool
  pub read : Option (ℕ → ℕ → ℕ → ℕ → Answer)
  pub write : Option (ℕ → ℕ → ℕ → List ℕ → Bool)
  pub has_writetrb : Bool
  pub has_writetre : Bool

-- A call of a driver that changes the device.
pub data Call : Type 0 where
  writetrb writetre : (fd inode : ℕ) → Call
  write_to : (fd inode offs : ℕ) → List ℕ → Call

-- The state of the service; `calls` are the calls of drivers, the last one first.
pub record Fs : Type 0 where
  pub fcbs : Fcbs
  pub fsdrv : List Driver
  pub devfsidx : ℕ
  pub fsck_dev : ℕ
  pub errno : ℕ
  pub ackdelayed : Bool
  pub workleft : ℕ
  pub calls : List Call

-- `seterr(e); return r;`
abbrev pub fails {ℓ} : {A : Type ℓ} → ℕ → A → Fs → A × Fs
fails e r s = (r, record s { errno = e })

-- A write to an entry of the table.
abbrev pub set_fcb : ℕ → Fcb → Fs → Fs
set_fcb i f s = record s { fcbs = record s.fcbs { fcb = set s.fcbs.fcb i f } }

-- `fsdrv[i].write` and `fsdrv[i].read`, NULL out of range
abbrev pub driver_write : ℕ → Fs → Option (ℕ → ℕ → ℕ → List ℕ → Bool)
driver_write i s = elim (get_elem? s.fsdrv i) [ none ↦ none | some d ↦ d.write ]

abbrev pub driver_read : ℕ → Fs → Option (ℕ → ℕ → ℕ → ℕ → Answer)
driver_read i s = elim (get_elem? s.fsdrv i) [ none ↦ none | some d ↦ d.read ]

abbrev pub has_writetrb : ℕ → Fs → Bool
has_writetrb i s = elim (get_elem? s.fsdrv i) [ none ↦ false | some d ↦ d.has_writetrb ]

abbrev pub has_writetre : ℕ → Fs → Bool
has_writetre i s = elim (get_elem? s.fsdrv i) [ none ↦ false | some d ↦ d.has_writetre ]

abbrev pub called : Call → Fs → Fs
called c s = record s { calls = c ∷ s.calls }

abbrev pub is_none {ℓ} : {A : Type ℓ} → Option A → Bool
is_none none = true
is_none (some a) = false

-- Registers a driver; `none` when the service exits because an error is pending.
unfoldable pub fsdrv_reg : Driver → Fs → Option (ℕ × Fs)
fsdrv_reg d s =
    let is_devfs = strcmp d.name (codes "devfs") in
    let n = length s.fsdrv in
    if strcmp d.name []
    then some (minus_one_16, s)
    else if not is_devfs && (is_none d.detect || not d.has_locate)
    then some (minus_one_16, s)
    else if not (s.errno == 0)
    then none
    else some (
      n % 2 ^ 16,
      record s {
        fsdrv = s.fsdrv ++ d ∷ [];
        devfsidx = if (s.devfsidx == minus_one_16) && is_devfs then n % 2 ^ 16 else s.devfsidx;
      },
    )

-- The first driver of a name.
unfoldable pub driver_from : List ℕ → ℕ → List Driver → Option ℕ
driver_from name i [] = none
driver_from name i (d ∷ ds) =
    let rest = driver_from name (suc i) ds in if strcmp d.name name then some i else rest

unfoldable pub fsdrv_get : List ℕ → Fs → Option ℕ
fsdrv_get name s = driver_from name 0 s.fsdrv

-- The first driver that knows the block.
unfoldable pub detect_from : ℕ → List ℕ → ℕ → List Driver → Option ℕ
detect_from dev blk i [] = none
detect_from dev blk i (d ∷ ds) =
    let rest = detect_from dev blk (suc i) ds in
    elim d.detect [ none ↦ rest | some knows ↦ if knows dev blk then some i else rest ]
