-- ===== src/Security.antt =====
-- The access checks of the core, src/core/security.c: `task_allowed` and `msg_allowed`.
pub mod Policy
pub mod Groups
mod Tests
use osz.Base.Errno.{eperm}
use osz.Base.{
  ℕ, zero, suc, ◌+◌, ◌-◌, ◌%◌, ◌^◌, bit_and, Bool, true, false, not, ◌&&◌, ◌||◌, Option, none, some,
  List, [], ◌∷◌, length, get_or, ltb, leb, ◌==◌, if◌then◌else◌,
}
use osz.Base.Text.{codes, first_byte, kmemcmp}

-- What the checks read of the sender's task control block. An access control entry is a `uuid_t`:
-- 15 bytes of a zero padded name, and the access bits.
pub record Sender : Type 0 where
  pub pid : ℕ
  pub priority : ℕ
  pub owner : List ℕ
  pub acl : List (List ℕ)

-- `TCB_MAXACE`, `PRI_…`, `A_WRITE`
abbrev pub max_ace : ℕ
max_ace = 128

abbrev pub pri_sys : ℕ
pri_sys = 0

abbrev pub pri_drv : ℕ
pri_drv = 2

abbrev pub pri_srv : ℕ
pri_srv = 3

abbrev pub a_write : ℕ
a_write = 2

-- `rootuid`
abbrev pub rootuid : List ℕ
rootuid = codes "root"

-- `SRV_FS` and the others are the negative numbers -1 to -7, compared as `uint64_t`.
abbrev pub srv : ℕ → ℕ
srv k = 2 ^ 64 - k

-- Whether the entry grants the access: the 16th byte.
abbrev pub grants : List ℕ → ℕ → Bool
grants g access = access == 0 || bit_and (get_or g 15 0) access == access

-- The loop over the entries, `n` of them at most; an empty name ends the list.
unfoldable pub find_ace : ℕ → List ℕ → ℕ → ℕ → List (List ℕ) → Bool
find_ace zero grp j access acl = false
find_ace (suc n) grp j access [] = false
find_ace (suc n) grp j access (g ∷ gs) =
    let rest = find_ace n grp j access gs in
    if first_byte g == 0 then false else if kmemcmp j g grp then grants g access else rest

unfoldable pub task_allowed : Sender → Option (List ℕ) → ℕ → Bool
task_allowed tcb none access = false
task_allowed tcb (some grp) access =
    let j = if ltb 15 (length grp) then 15 else length grp in
    if first_byte grp == 0 then false else find_ace max_ace grp j access tcb.acl

-- `EVT_FUNC(event)`
abbrev pub evt_func : ℕ → ℕ
evt_func event = event % 2 ^ 15

abbrev pub is_root : Sender → Bool
is_root s = kmemcmp 15 s.owner rootuid

abbrev pub may : Sender → List ℕ → ℕ → Bool
may s grp access = task_allowed s (some grp) access

-- The checks for a message to the core, `SYS_setirq` is 5 and `SYS_stime` 9.
unfoldable pub core_allowed : Sender → ℕ → Bool
core_allowed s e =
    if e == 5 && not (s.priority == pri_drv)
    then false
    else if is_root s
    then true
    else if e == 9 && not (s.priority == pri_drv) && not (may s (codes "stime") a_write)
    then false
    else true

-- To the file system: `SYS_mountfs` 6, `SYS_mknod` 10, `SYS_setblock` 4, `SYS_chroot` 37,
-- `SYS_mount` 7, `SYS_umount` 8.
unfoldable pub fs_allowed : (ℕ → ℕ) → Sender → ℕ → Bool
fs_allowed services s e =
    if e == 6 && not (s.pid == services 6)
    then false
    else if (e == 10 || e == 4) && not (s.priority == pri_drv) && not (s.priority == pri_srv)
    then false
    else if is_root s
    then true
    else if e == 37 && not (may s (codes "chroot") a_write)
    then false
    else if (e == 7 || e == 8) && not (may s (codes "mount") a_write)
    then false
    else true

-- To the user interface: `SYS_devprogress` is 30.
unfoldable pub ui_allowed : (ℕ → ℕ) → Sender → ℕ → Bool
ui_allowed services s e =
    if may s (codes "noui") 0
    then false
    else if e == 30 && not (s.pid == services 1)
    then false
    else true

-- The destination is the service, by its number or by its task.
abbrev pub to_srv : (ℕ → ℕ) → ℕ → ℕ → Bool
to_srv services dest k = dest == srv k || dest == services k

-- `services k` is `services[k]`, the task of service -k.
unfoldable pub is_allowed : (ℕ → ℕ) → Sender → ℕ → ℕ → Bool
is_allowed services s dest e =
    if s.priority == pri_sys
    then true
    else if dest == 0
    then core_allowed s e
    else if to_srv services dest 1
    then fs_allowed services s e
    else if to_srv services dest 2
    then ui_allowed services s e
    else if to_srv services dest 3
    then not (may s (codes "nosyslog") 0)
    else if to_srv services dest 4
    then not (may s (codes "noinet") 0)
    else if to_srv services dest 5
    then not (may s (codes "nosound") 0)
    else if to_srv services dest 6
    then not (may s (codes "noinit") 0)
    else if to_srv services dest 7 && not (s.pid == services 2)
    then false
    else true

-- The answer, and `coreerrno` after the call.
unfoldable pub msg_allowed : (ℕ → ℕ) → Sender → (dest event errno : ℕ) → Bool × ℕ
msg_allowed services s dest event errno =
    let ok = is_allowed services s dest (evt_func event) in (ok, if ok then errno else eperm)
