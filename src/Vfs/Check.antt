-- ===== src/Vfs/Check.antt =====
-- The check of a file system, `dofsck` of src/fs/vfs.c, and what `statfs` tells of a file. The
-- functions of drivers are arguments; NULL is `none`.
use osz.Base.{
  ℕ, zero, suc, ◌-◌, ◌≡◌, Bool, true, false, not, ◌||◌, Option, none, some, List, length, leb, ◌==◌,
  if◌then◌else◌, arith, bit_or, ltb, ◌%◌, ◌^◌, ◌*◌,
}
use osz.Base.Errno.{eperm}
use osz.Fs.{minus_one, minus_one_16}
use osz.Cache.{type_device}
use osz.Base.Errno.{ebusy}
use osz.Fcb.{Fcb, type_union, type_pipe}
use osz.Vfs.{Vfs, fails, entry?, fsdrv_detect}

-- The loop over the steps, of which `n` are left; `FSCKSTEP_DONE` is 4.
unfoldable pub fsck_steps : (n fd : ℕ) → (ℕ → Vfs → Bool × Vfs) → Vfs → Bool × Vfs
fsck_steps zero fd checkfs v = (
  true,
  record v { fs = record v.fs { fsck_dev = minus_one }; fsck = record v.fsck { step = 0 } },
)
fsck_steps (suc n) fd checkfs v =
    let (ok, v₁) = checkfs fd v in
    let rest =
      fsck_steps n fd checkfs (record v₁ { fsck = record v₁.fsck { step = suc v₁.fsck.step } }) in
    if not ok || v₁.fs.ackdelayed then (false, v₁) else rest

-- The first call takes the device.
unfoldable pub fsck_begin :
    (chain : ℕ) (zeroblk random : ℕ → List ℕ) (fd : ℕ) (fix : Bool) → Vfs → Option Vfs
fsck_begin chain zeroblk random fd fix v =
    let v₁ : Vfs = record v {
      fs = record v.fs { fsck_dev = fd };
      fsck = record { step = 0; fix = fix; fs = v.fsck.fs };
    } in
    if not (v.fs.fsck_dev == minus_one)
    then some v
    else elim (fsdrv_detect chain zeroblk random fd v₁) [
      | none ↦ none
      | some (i, v₂) ↦ some (record v₂ { fsck = record v₂.fsck { fs = i } })
    ]

-- `DEVFCB` is 1.
unfoldable pub dofsck :
    (chain : ℕ) (zeroblk random : ℕ → List ℕ) (checkfs : ℕ → Option (ℕ → Vfs → Bool × Vfs)) (fd : ℕ)
    (fix : Bool)
    → Vfs
    → Option (Bool × Vfs)
dofsck chain zeroblk random checkfs fd fix v =
    if (fd == minus_one) || not (v.fs.fsck_dev == minus_one) || not (v.fs.fsck_dev == fd)
    then some (fails eperm false v)
    else elim (entry? fd v) [
      | none ↦ none
      | some f ↦
          if not (f.type == type_device) || not (f.storage == 1)
          then some (fails eperm false v)
          else elim (fsck_begin chain zeroblk random fd fix v) [
            | none ↦ none
            | some v₁ ↦
                if (v₁.fsck.fs == minus_one_16) || leb (length v₁.fs.fsdrv) v₁.fsck.fs
                then some (fails eperm false v₁)
                else elim (checkfs v₁.fsck.fs) [
                  | none ↦ some (fails eperm false v₁)
                  | some check ↦ some (fsck_steps (4 - v₁.fsck.step) fd check v₁)
                ]
          ]
    ]

-- No device is ever checked: `dofsck` refuses every call with `EPERM`, and changes nothing else.
dofsck_refuses :
    (chain : ℕ) (zeroblk random : ℕ → List ℕ) (checkfs : ℕ → Option (ℕ → Vfs → Bool × Vfs)) (fd : ℕ)
    (fix : Bool) (v : Vfs)
    → dofsck chain zeroblk random checkfs fd fix v ≡ some (fails eperm false v)
unfolding dofsck
dofsck_refuses chain zeroblk random checkfs fd fix v = ground arith

-- The fields of `stat_t` that `statfs` fills in.
pub record Stat : Type 0 where
  pub st_dev : ℕ
  pub st_ino : ℕ
  pub st_mode : ℕ
  pub st_size : ℕ
  pub st_blksize : ℕ

-- The common fields: the access bits and the type; a union shows as a directory with its own flag.
unfoldable pub stat_of : Fcb → Stat
stat_of f = record {
  st_dev = f.storage;
  st_ino = f.inode;
  st_mode =
      if f.type == type_union
      then bit_or (f.mode % 2 ^ 16) (bit_or 0x10000 0x2000000)
      else bit_or (f.mode % 2 ^ 16) (f.type * 2 ^ 16);
  st_size = f.filesize;
  st_blksize = 0;
}

-- The fields that depend on the type; `FCB_TYPE_SOCKET` is 5. `stat` is the function of the driver
-- with an index. The block size of a file is that of its storage.
unfoldable pub stat_typed : (stat : ℕ → Option (ℕ → ℕ → Stat → Stat)) → Fcb → Vfs → Option Stat
stat_typed stat f v =
    let st = stat_of f in
    let st' : Stat =
      if ltb f.fs (length v.fs.fsdrv)
      then elim (stat f.fs) [ none ↦ st | some s ↦ s f.storage f.inode st ]
      else st in
    if (f.type == type_pipe) || (f.type == 5)
    then some st
    else if f.type == type_device
    then some (record st {
      st_blksize = f.blksize;
      st_mode = if f.blksize == 1 then bit_or st.st_mode 0x3000000 else st.st_mode;
    })
    else elim (entry? f.storage v) [
      | none ↦ none
      | some d ↦ some (record st' { st_blksize = d.blksize })
    ]

-- The inner `none` is NULL.
unfoldable pub statfs :
    (stat : ℕ → Option (ℕ → ℕ → Stat → Stat)) (idx : ℕ) → Vfs → Option (Option Stat × Vfs)
statfs stat idx v = elim (entry? idx v) [
  | none ↦ some (none, v)
  | some f ↦ elim f.abspath [
    | none ↦ some (none, v)
    | some p ↦
        if v.fs.fsck_dev == f.storage
        then some (fails ebusy none v)
        else elim (stat_typed stat f v) [ none ↦ none | some st ↦ some (some st, v) ]
  ]
]
