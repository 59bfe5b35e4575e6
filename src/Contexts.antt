-- ===== src/Contexts.antt =====
-- The contexts of tasks in the file system service, src/fs/taskctx.c: `taskctx_get`, `taskctx_del`,
-- `taskctx_rootdir`, `taskctx_workdir`, `taskctx_open`, `taskctx_close`, `taskctx_seek`,
-- `taskctx_validfid`, `taskctx_write`. A context lies at an address, 0 is NULL, and `next` is an
-- address; the array of open files is a list, where an empty one stands for NULL. The heap has room.
pub mod Descriptors
pub mod Hash
pub mod Files
pub mod Seek
mod Tests
use osz.Base.Errno.{eacces, ebadf, ebusy, einval, enoent, eperm, espipe}
use osz.Base.{
  ℕ, zero, suc, ◌+◌, ◌-◌, ◌%◌, ◌^◌, bit_and, bit_or, Bool, true, false, not, ◌&&◌, ◌||◌, Option,
  none, some, List, [], ◌∷◌, ◌++◌, length, get_elem?, set, ltb, leb, ◌==◌, if◌then◌else◌, add64,
  sub64,
}
use osz.Fcb.{Fcb, Fcbs, fcb_del}
use osz.Fs.{minus_one, o_read, o_write, o_excl, o_append, o_creat, o_tmpfile, has, Fs, set_fcb}
use osz.Buffers.{fcb_write, fcb_flush}

-- `openfiles_t`; a free descriptor has the `fid` -1.
pub record OpenFile : Type 0 where
  pub fid : ℕ
  pub mode : ℕ
  pub offs : ℕ
  pub unionidx : ℕ

-- `taskctx_t`, but for the state of a suspended read
pub record Ctx : Type 0 where
  pub pid : ℕ
  pub rootdir : ℕ
  pub workdir : ℕ
  pub nfiles : ℕ
  pub openfiles : List OpenFile
  pub next : ℕ

-- The contexts by address, the hash table, and the service; `malloc` gives the addresses of contexts,
-- of which `allocs` were given.
pub record Contexts : Type 0 where
  pub ctx : ℕ → Ctx
  pub taskctx : ℕ → ℕ
  pub ntaskctx : ℕ
  pub malloc : ℕ → ℕ
  pub allocs : ℕ
  pub fs : Fs

abbrev pub set_ctx : ℕ → Ctx → Contexts → Contexts
set_ctx p c s = record s { ctx = λ q. if p == q then c else s.ctx q }

abbrev pub set_hash : (i p : ℕ) → Contexts → Contexts
set_hash i p s = record s { taskctx = λ j. if i == j then p else s.taskctx j }

abbrev pub with_fcbs : Fcbs → Contexts → Contexts
with_fcbs t s = record s { fs = record s.fs { fcbs = t } }

-- `seterr(e)`
abbrev pub seterr : ℕ → Contexts → Contexts
seterr e s = record s { fs = record s.fs { errno = e } }

-- The walk along a chain of at most `n` contexts: the context of the task, or 0.
unfoldable pub find_ctx : (n pid tc : ℕ) → (ℕ → Ctx) → Option ℕ
find_ctx zero pid tc ctx = none
find_ctx (suc n) pid tc ctx =
    let rest = find_ctx n pid (ctx tc).next ctx in
    if tc == 0 then some 0 else if (ctx tc).pid == pid then some tc else rest

-- `fcb[i].nopen+=k`
unfoldable pub open_more : (i k : ℕ) → Contexts → Contexts
open_more i k s = elim (get_elem? s.fs.fcbs.fcb i) [
  | none ↦ s
  | some f ↦ record s { fs = set_fcb i (record f { nopen = add64 f.nopen k }) s.fs }
]

-- A new context, in memory that holds `fresh`. The walk before it ended at NULL, so the context
-- becomes the first of its bucket.
unfoldable pub add_ctx : Ctx → ℕ → Contexts → ℕ × Contexts
add_ctx fresh pid s =
    let p = s.malloc s.allocs in
    let s₁ = set_hash (pid % 256) p (set_ctx p (record fresh { pid = pid }) s) in
    let s₂ = open_more 0 2 s₁ in (p, record s₂ { ntaskctx = suc s.ntaskctx; allocs = suc s.allocs })

-- `n` bounds the length of a chain.
unfoldable pub taskctx_get : Ctx → (n pid : ℕ) → Contexts → Option (ℕ × Contexts)
taskctx_get fresh n pid s = elim (find_ctx n pid (s.taskctx (pid % 256)) s.ctx) [
  | none ↦ none
  | some p ↦ some (if p == 0 then add_ctx fresh pid s else (p, s))
]

-- `fcb_del` with a bound `d` on how deep unions hold unions.
unfoldable pub release_fcb : (d fid : ℕ) → Contexts → Option Contexts
release_fcb d fid s = elim (fcb_del d fid s.fs.fcbs) [ none ↦ none | some t ↦ some (with_fcbs t s) ]

-- The walk of `taskctx_del`, which ends at the last context of the chain when none is the task's:
-- the context and the one before it, or 0.
unfoldable pub del_walk : (n pid ltc tc : ℕ) → (ℕ → Ctx) → Option (ℕ × ℕ)
del_walk zero pid ltc tc ctx = none
del_walk (suc n) pid ltc tc ctx =
    let rest = del_walk n pid tc (ctx tc).next ctx in
    if ((ctx tc).next == 0) || ((ctx tc).pid == pid) then some (tc, ltc) else rest

-- All files of a list of descriptors are released.
unfoldable pub release_all : (d : ℕ) → List OpenFile → Contexts → Option Contexts
release_all d [] s = some s
release_all d (o ∷ os) s = elim (release_fcb d o.fid s) [
  | none ↦ none
  | some s' ↦ release_all d os s'
]

-- The directories and files of a context that was taken out of its chain.
unfoldable pub release_ctx : (d : ℕ) → Ctx → Contexts → Option Contexts
release_ctx d c s = elim (release_fcb d c.workdir s) [
  | none ↦ none
  | some s₁ ↦ elim (release_fcb d c.rootdir s₁) [
    | none ↦ none
    | some s₂ ↦ release_all d c.openfiles s₂
  ]
]

unfoldable pub unlink_ctx : (pid tc ltc : ℕ) → Contexts → Contexts
unlink_ctx pid tc ltc s =
    let next = (s.ctx tc).next in
    let s₁ =
      if ltc == 0
      then set_hash (pid % 256) next s
      else set_ctx ltc (record (s.ctx ltc) { next = next }) s in
    record s₁ { ntaskctx = sub64 s.ntaskctx 1 }

unfoldable pub taskctx_del : (n d pid : ℕ) → Contexts → Option Contexts
taskctx_del n d pid s =
    let tc = s.taskctx (pid % 256) in
    if tc == 0 then some s else elim (del_walk n pid 0 tc s.ctx) [
      | none ↦ none
      | some (p, l) ↦ release_ctx d (s.ctx p) (unlink_ctx pid p l s)
    ]

-- Whether an `fid_t` is in range and in use.
unfoldable pub is_used : ℕ → Contexts → Bool
is_used fid s = elim (get_elem? s.fs.fcbs.fcb fid) [
  | none ↦ false
  | some f ↦ elim f.abspath [ none ↦ false | some p ↦ true ]
]

unfoldable pub taskctx_rootdir : (d tc fid : ℕ) → Contexts → Option Contexts
taskctx_rootdir d tc fid s =
    if (tc == 0) || not (is_used fid s) then some s else elim (release_fcb d (s.ctx tc).rootdir s) [
      | none ↦ none
      | some s₁ ↦ some (open_more fid 1 (set_ctx tc (record (s₁.ctx tc) { rootdir = fid }) s₁))
    ]

unfoldable pub taskctx_workdir : (d tc fid : ℕ) → Contexts → Option Contexts
taskctx_workdir d tc fid s =
    if (tc == 0) || not (is_used fid s) then some s else elim (release_fcb d (s.ctx tc).workdir s) [
      | none ↦ none
      | some s₁ ↦ some (open_more fid 1 (set_ctx tc (record (s₁.ctx tc) { workdir = fid }) s₁))
    ]
