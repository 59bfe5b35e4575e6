-- ===== src/Lib.antt =====
-- OS/Z is a microkernel operating system. These modules model parts that keep shared state and
-- decide: which memory is free, which task runs, who may send which message, which files the file
-- system service has at hand, and what tasks have open.
--
-- The parts and their files (paths from the root of the repository):
--   Base       names and lemmas that all parts share; Base.Text has `kmemcmp` of
--              src/core/x86_64/libk.S and `strcmp` of src/lib/libc/x86_64/string.S, Base.Errno
--              the error numbers of etc/include/errno.h.
--   Pmm        src/core/pmm.c: `pmm_alloc`, `pmm_allocslot`, `pmm_free`, `kalloc`. The table of
--              free areas is a list, the rest of `pmm_t` a record. Pmm.Cover says which addresses
--              a table makes free and when it is valid; Pmm.Alloc, Pmm.Cut with Pmm.Slot, Pmm.Free
--              and Pmm.Kernel hold the proofs about the operation that they are named for.
--   Sched      src/core/sched.c: the queues of tasks and the choice of the next task. The task
--              control blocks are a function of the pid, and the links `next` and `prev` are
--              pids. Sched.Links relates links to lists; Sched.Queues and Sched.Moves carry a
--              list through the operations; Sched.Block, Sched.Awake, Sched.Runs and Sched.Pick
--              with Sched.Turn hold the proofs about calls.
--   Security   src/core/security.c: `task_allowed`, `msg_allowed`. Security.Policy states the
--              policy as rules, Security.Groups is about access control entries.
--   Messages   src/core/msg.c: `msg_sends`, with `ksend` of src/core/x86_64/libk.S and the receiving
--              end of `isr_syscall` in src/core/x86_64/isrc.S. A queue is a function from slots to
--              messages; Messages.Send has the call itself, over the areas of all tasks.
--              Messages.Slots, Messages.Ring and Messages.Order are about the queue, Messages.Sent and
--              Messages.Outcome about the call, Messages.Pages about the pages of buffers.
--   Env        src/core/env.c with the parameters that the platforms of x86_64 add,
--              src/core/x86_64/ibmpc/platform.c and src/core/x86_64/acpi/platform.c. Env.Date has
--              `env_getts`, which Env.Calendar, Env.Encoded and Env.Signed are about; Env.Parse has
--              the parsers of values and Env.Init the loop, which Env.Values, Env.Keys, Env.Bounds
--              and Env.Digits are about.
--   Fcb        src/fs/fcb.c: `fcb_get`, `fcb_add`, `fcb_del`, `fcb_free`. The table of file control
--              blocks is a list, `nfcb` its length. Fcb.Table says when it is valid; Fcb.Add,
--              Fcb.Stuck and Fcb.Free hold the proofs.
--   Fs         the state that the file system service shares, and src/fs/fsdrv.c. A driver is a
--              record of its functions, with an option for each that may be NULL; the calls that
--              change a device are recorded in their order. Fs.Drivers is about the list of
--              drivers, Fs.Samples has a small service for the tests.
--   Buffers    src/fs/fcb.c: `fcb_write`, `fcb_flush`. The write buffers of a file are a list of
--              offsets and bytes. Buffers.Empty, Buffers.Inside and Buffers.Flush hold the proofs.
--   Devfs      src/fs/devfs.c: `devfs_add`, `devfs_used`, `devfs_lastused`; Vfs.Remove has
--              `devfs_del` and `devfs_getdirent`, which touch mounts, files and blocks.
--              Devfs.Registered is about `devfs_add`, Devfs.Order and Devfs.Kinds about
--              `devfs_used`, Devfs.Oldest about `devfs_lastused`.
--   Cache      src/fs/cache.c: `cache_getblock`, `cache_setblock`, `cache_flush`,
--              `cache_cleardirty`, and in Cache.Release `cache_freeblocks`, with
--              memory for its index, and `cache_free`. Blocks lie in a store by address,
--              and `next` is an address. Cache.Chain is about the walk along a chain,
--              Cache.Stored about blocks that are found again, Cache.Flush about what is written.
--   Contexts   src/fs/taskctx.c: the contexts of tasks lie in a store by address and are linked
--              into 256 buckets, `openfiles` is a list with `nopenfiles` its length.
--              Contexts.Descriptors has the operations on descriptors; Contexts.Hash,
--              Contexts.Files and Contexts.Seek hold the proofs.
--   Paths      src/fs/vfs.c: `pathpush`, `pathpop`, `pathcat`, `canonize`, `getver`, `getoffs`.
--              Paths.Parts and Paths.Room follow `canonize` through its loop; Paths.Ends, Paths.Devices,
--              Paths.Stack and Paths.Cat hold the proofs.
--   Vfs        src/fs/vfs.c: `readblock`, `writeblock`, and `fsdrv_detect` of src/fs/fsdrv.c, over one
--              state with the parts above; Vfs.Check has `dofsck` and `statfs`, Vfs.Located and
--              Vfs.Lookup `lookup`, and Vfs.Mounts and Vfs.Fstab src/fs/mtab.c: `mtab_add`,
--              `mtab_del`, `mtab_fstab`. Vfs.Device, Vfs.Kept, Vfs.Lookup.Failed, Vfs.Lookup.Longest,
--              Vfs.Mounts.Unique, Vfs.Mounts.Added and Vfs.Fstab.Line hold the proofs.
--   Numbers    src/lib/libc/stdlib.c: `stdlib_hex`, `stdlib_dec`, `atoi`, `atol`, `atoll`,
--              `bsearch`. Numbers.Decimal and Numbers.Search hold the proofs.
--
-- How the parts interact: `kalloc` takes its pages from `pmm_alloc`; `msg_sends` asks Security before
-- it sends a message, and wakes the receiver through Sched. The file system service is a task that
-- the core sends messages to. In it Contexts opens and releases entries of
-- Fcb, and writes and flushes them through Buffers, which calls the drivers of Fs; Devfs adds the
-- entries of devices to Fcb; Paths reads offsets with `atoll` of Numbers. Vfs puts these together: a
-- block of a device comes from memory or from Cache, a block of a file from the drivers and the
-- write buffers of Buffers; `lookup` makes a path absolute with Paths, finds its entry in Fcb, or asks
-- the driver of the mount, which is detected by its first block. Env reads its numbers with the loops
-- of Numbers.
--
-- Numbers are natural numbers; a sum or a difference of 64 bit words wraps around by `add64` and
-- `sub64`, and a signed number is its word; a product of `int` in `pmm_alloc` wraps around too. The
-- search of the scheduler, a `goto` in the source, has
-- a bound of two turns, and it is proved that these are enough; the loop of `canonize` has one turn
-- more than its path has bytes, and `bsearch` one more than there are elements, which is enough too.
-- `sched_alarm` takes a bound on the length of the timer queue, Cache and Contexts one on the length
-- of a chain, `cache_free` one on its turns, `fcb_del` one on how deep unions hold unions, and
-- `fcb_free` one on the turns over the table. `lookup` takes a bound on how often it starts over and
-- how deep unions hold unions, `mtab_add`, which calls itself once for the devices, one on its depth, a pass over fstab has one turn
-- for each byte, and so has `env_init`, for which it is proved that this is enough.
--
-- Parameters of the model: `kentropy`, which stirs the random words in assembly; the memory behind
-- the table of file control blocks before it grows; the addresses that `malloc` gives to contexts,
-- and what fresh memory holds; the functions of a file system driver, `locate`, `stat`,
-- `resizefs` and `checkfs` among them; what freed memory reads as, where `lookup` reads a path that it
-- has freed; what the locals of `env_init` hold before they are written; the comparison that `bsearch`
-- is called with; the page table entries of a sender's memory, of which `msg_sends` reads some, and
-- the words of the stack where `ksend` looks for the last two arguments. Apart from contexts, the
-- heap is taken to have room. Where the source reads or writes outside an array or through NULL, or
-- behind the pages of a table or the buffer of a path, the result of the model is `none`, or a comment
-- at the definition says what it is.
--
-- Not modelled: page tables, interrupts and the debugger, which act on hardware registers; drivers
-- and the other services; in the file system service reading files and directories, and
-- the main loop; in the core `msg_syscall`, the loader of executables, the
-- console and `pmm_init`; the allocator of the C library.
pub mod Base
pub mod Buffers
pub mod Cache
pub mod Contexts
pub mod Devfs
pub mod Env
pub mod Fcb
pub mod Fs
pub mod Messages
pub mod Numbers
pub mod Paths
pub mod Pmm
pub mod Sched
pub mod Security
pub mod Vfs
