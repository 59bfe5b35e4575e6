-- ===== src/Contexts/Tests.antt =====
-- Runs of taskctx.c on a small service, and its theorems at this service.
use osz.Base.Errno.{ebusy, einval}
use osz.Base.{
  ℕ, ◌+◌, ◌-◌, ◌%◌, ◌^◌, ◌≡◌, ◌≢◌, refl, inl, true, false, some, [], ◌∷◌, if◌then◌else◌, arith,
  ◌==◌,
}
use osz.Fcb.{fcb_del, del_union, trim, keep}
use osz.Fs.{minus_one, has, o_excl}
use osz.Fs.Samples.{file_with, service}
use osz.Contexts.{
  OpenFile, Ctx, Contexts, find_ctx, taskctx_get, del_walk, release_fcb, release_all, release_ctx,
  unlink_ctx, taskctx_del, is_used, seterr,
}
use osz.Contexts.Descriptors.{
  is_permitted, read_mode, open_mode, used_fcb, taskctx_open, file_of, taskctx_validfid, valid_file,
  taskctx_seek, drop_file, close_fcb, keep_file, trim_files, taskctx_close,
}
use osz.Contexts.Files.{Opened, taskctx_open-Opened, taskctx_open_excl}
use osz.Contexts.Seek.{taskctx_seek_back}

abbrev no_ctx : Ctx
no_ctx = record { pid = 0; rootdir = 0; workdir = 0; nfiles = 0; openfiles = []; next = 0 }

-- Task 5 has a context at address 8; contexts get the addresses 100, 101 and so on.
abbrev tasks : Contexts
tasks = record {
  ctx = λ p. record no_ctx { pid = 5 };
  taskctx = λ i. if i == 5 then 8 else 0;
  ntaskctx = 1;
  malloc = λ i. 100 + i;
  allocs = 0;
  fs = service (file_with []);
}

-- Task 5 has file 2 open at byte 20.
abbrev open_file : OpenFile
open_file = record { fid = 2; mode = 1; offs = 20; unionidx = 0 }

abbrev reading : Contexts
reading = record tasks {
  ctx = λ p. record no_ctx { pid = 5; nfiles = 1; openfiles = open_file ∷ [] };
}

get_5 : taskctx_get no_ctx 2 5 tasks ≡ some (8, tasks)
unfolding taskctx_get find_ctx
get_5 = refl

-- The task that goes is the last of its chain, whoever it is.
del_other : (s' : Contexts) × (taskctx_del 2 1 261 tasks ≡ some s') × (s'.taskctx 5 ≡ 0)
unfolding taskctx_del del_walk unlink_ctx release_ctx release_fcb release_all fcb_del del_union trim
    keep
del_other = (_, refl, refl)

close_file :
    (s' : Contexts) × (taskctx_close (λ n. []) 1 8 0 false reading ≡ some (true, s'))
    × ((s'.ctx 8).openfiles ≡ [])
unfolding taskctx_close valid_file taskctx_validfid is_used has close_fcb release_fcb fcb_del
    del_union trim keep drop_file trim_files keep_file
close_file = (_, refl, refl)

no_task_6 : find_ctx 1 6 (tasks.taskctx (6 % 256)) tasks.ctx ≡ some 0
unfolding find_ctx
no_task_6 = refl

task_5 : find_ctx 1 5 (tasks.taskctx (5 % 256)) tasks.ctx ≡ some 8
unfolding find_ctx
task_5 = refl

no_task_261 : find_ctx 2 261 (tasks.taskctx (261 % 256)) tasks.ctx ≡ some 0
unfolding find_ctx
no_task_261 = refl

file_2 : used_fcb 2 tasks ≡ some (file_with [])
unfolding is_used
file_2 = refl

-- Reading and writing, exclusively
permitted : is_permitted (read_mode 7) (record (file_with []) { mode = 7 }) ≡ true
unfolding is_permitted read_mode has
permitted = refl

abbrev shared : Contexts
shared = record tasks { fs = service (record (file_with []) { mode = 7 }) }

shared_2 : used_fcb 2 shared ≡ some (record (file_with []) { mode = 7 })
unfolding is_used
shared_2 = refl

exclusive : has (open_mode (read_mode 7)) o_excl ≡ true
unfolding open_mode read_mode has
exclusive = refl

taskctx_open-Opened_example :
    let (i, s') = taskctx_open 8 2 7 0 minus_one shared in
    Opened 8 2 (open_mode (read_mode 7)) 0 i shared s'
taskctx_open-Opened_example =
    taskctx_open-Opened 8 2 7 0 minus_one (record (file_with []) { mode = 7 }) shared
      (λ e. ground arith) (λ e. ground arith) shared_2 refl permitted

taskctx_open_excl_example :
    let (i, s') = taskctx_open 8 2 7 0 minus_one shared in
    taskctx_open 9 2 1 0 minus_one s' ≡ (minus_one, seterr ebusy s')
taskctx_open_excl_example =
    taskctx_open_excl 8 2 7 0 minus_one (record (file_with []) { mode = 7 }) shared 9 1 0 minus_one
      (λ e. ground arith) (λ e. ground arith) shared_2 refl permitted exclusive (λ e. ground arith)

reading_0 : valid_file 8 0 reading ≡ some (open_file, file_with [])
unfolding valid_file taskctx_validfid is_used
reading_0 = refl

-- 30 bytes back from byte 20
taskctx_seek_back_example :
    let r = taskctx_seek 8 0 (2 ^ 64 - 30) 1 reading in
    (r.0 ≡ false)
    × (file_of 8 0 r.1 ≡ some (record open_file { offs = 0 }))
    × ((j : ℕ) → j ≢ 0 → file_of 8 j r.1 ≡ file_of 8 j reading)
    × (r.1.fs ≡ record reading.fs { errno = einval })
taskctx_seek_back_example =
    taskctx_seek_back 8 0 30 1 reading open_file (file_with []) reading_0 refl (omega arith)
      (omega arith) (omega arith) (omega arith) (inl refl)
