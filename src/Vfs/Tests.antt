-- ===== src/Vfs/Tests.antt =====
-- A service with a RAM disk, a disk behind the cache, and a directory.
use osz.Base.{
  ℕ, ◌≡◌, refl, true, false, none, some, List, [], ◌∷◌, arith, inl, take, get_elem?, ◌⊎◌, ◌≤◌,
}
use osz.Base.Text.{codes, strcmp}
use osz.Fcb.{Fcb, fcb_get, get_from, matches, fcb_del, del_union, Fcbs}
use osz.Fs.{minus_one, minus_one_16, has, detect_from}
use osz.Fs.Samples.{entry, memory_driver}
use osz.Devfs.{devfs_used}
use osz.Cache.{Cache}
use osz.Vfs.{
  Vfs, Mount, readblock, writeblock, merge, fsdrv_detect, detected, read_device, read_memory,
  mem_device,
}
use osz.Vfs.Device.{IsDevice, readblock-writeblock}
use osz.Vfs.Located.{World, notfound, find_mount, longest, is_prefix}
use osz.Vfs.Lookup.{lookup}
use osz.Vfs.Lookup.Failed.{Tells, lookup-Tells}
use osz.Vfs.Lookup.Longest.{MatchesAt, find_mount-IsLongest}
use osz.Vfs.Remove.{del_mounts, devfs_getdirent, first_device}
use osz.Vfs.Mounts.{
  mtab_add, mount_path_on, mount_detected, mount, storage_entry, directory_entry, mount_index,
  place_mount, replace_mount, update, mount_entry,
}
use osz.Vfs.Mounts.Added.{Added, mtab_add-Added}
use osz.Vfs.Fstab.{
  fstab_turn, skip_white, fstab_fields, field, field_of, word, skip_space, with_dev, with_file,
  with_opts,
}
use osz.Vfs.Fstab.Line.{fstab_turn_line}

abbrev ram : Fcb
ram = record (entry (some (codes "/dev/root")) 1 3) { filesize = 8; inode = 0 }

abbrev dir : Fcb
dir = record (entry (some (codes "/")) 1 1) { inode = 0 }

abbrev dev_dir : Fcb
dev_dir = entry (some (codes "/dev/")) 1 1

abbrev no_cache : Cache
no_cache = record {
  blocks = λ p. record { fd = 0; lsn = 0; blk = []; next = 0 };
  cache = λ i. 0;
  cachelines = 16;
  malloc = 300;
  fcb = [];
  errno = 0;
  ackdelayed = false;
  sent = [];
  written = [];
  total = λ k. 0;
  cache_inflush = 0;
  out = λ k. 0;
  progress = [];
}

abbrev service : List Mount → Vfs
service ms = record {
  fs = record {
    fcbs = record { fcb = dir ∷ dev_dir ∷ ram ∷ []; nfiles = 3 };
    fsdrv = memory_driver ∷ [];
    devfsidx = 0;
    fsck_dev = minus_one;
    errno = 0;
    ackdelayed = false;
    workleft = minus_one;
    calls = [];
  };
  devs = record {
    dev = record { fid = some 2; drivertask = 0; device = 1; recent = 1 } ∷ [];
    dev_recent = 1;
  };
  cache = no_cache;
  initrd = 1 ∷ 2 ∷ 3 ∷ 4 ∷ 5 ∷ 6 ∷ 7 ∷ 8 ∷ [];
  fsck = record { step = 0; fix = false; fs = 0 };
  mtab = ms;
  rootmounted = false;
}

abbrev zeros : ℕ → List ℕ
zeros n = []

readable : (has 3 1 ≡ true) × (has 3 2 ≡ true)
unfolding has
readable = (refl, refl)

ram-IsDevice :
    IsDevice 2 1 ram (record { fid = some 2; drivertask = 0; device = 1; recent = 1 }) (service [])
ram-IsDevice = record {
  block_number = λ e. absurd (ground arith);
  in_table = refl;
  readable = readable.0;
  writable = readable.1;
  is_device = refl;
  blksize_in = (omega arith, omega arith);
  block_inside = omega arith;
  filesize_in = omega arith;
  registered = refl;
}

readblock-writeblock_example :
    (v' : Vfs) × (writeblock 1 2 1 (9 ∷ 9 ∷ 9 ∷ 9 ∷ []) 0 (service []) ≡ some (true, v'))
    × ((b : List ℕ) × (v'' : Vfs) × (readblock 1 zeros zeros 2 1 v' ≡ some (some b, v''))
        × (take 4 b ≡ 9 ∷ 9 ∷ 9 ∷ 9 ∷ []))
readblock-writeblock_example =
    readblock-writeblock 1 0 0 zeros zeros 2 1 (9 ∷ 9 ∷ 9 ∷ 9 ∷ []) ram
      (record { fid = some 2; drivertask = 0; device = 1; recent = 1 }) (service []) ram-IsDevice
      (inl (refl, refl, omega arith)) (omega arith)

-- A world in which no driver knows any file.
abbrev nothing : World
nothing = record {
  chain = 1;
  zeroblk = zeros;
  random = zeros;
  locate = λ fs fd path creat v. (notfound, v);
  resizefs = λ fs. none;
  rootdir = codes "/";
  workdir = codes "/";
  pathmax = 512;
  stale = λ p. p;
  mmap = λ n. false;
  fresh = dir;
}

abbrev root_mount : Mount
root_mount = record { mountpoint = 0; storage = 2; fstype = 0 }

abbrev dev_mount : Mount
dev_mount = record { mountpoint = 1; storage = 1; fstype = 0 }

lookup-Tells_example : Tells (lookup 2 nothing 0 (codes "/etc/x") false (service (root_mount ∷ [])))
lookup-Tells_example = lookup-Tells 2 nothing 0 (codes "/etc/x") false (service (root_mount ∷ []))

find_mount-dev :
    find_mount (service []).fs.fcbs.fcb (codes "/dev/tty") (root_mount ∷ dev_mount ∷ [])
    ≡ some (dev_mount, (1, 5))
unfolding find_mount longest is_prefix
find_mount-dev = refl

find_mount-IsLongest_example :
    (get_elem? (root_mount ∷ dev_mount ∷ []) 1 ≡ some dev_mount)
    × (((◌≡◌ {A = ℕ} 1 0) × (◌≡◌ {A = ℕ} 5 0))
        ⊎ MatchesAt (service []).fs.fcbs.fcb (codes "/dev/tty") (root_mount ∷ dev_mount ∷ []) 1 5)
    × ((j n : ℕ)
        → MatchesAt (service []).fs.fcbs.fcb (codes "/dev/tty") (root_mount ∷ dev_mount ∷ []) j n
        → n ≤ 5)
find_mount-IsLongest_example =
    find_mount-IsLongest (service []).fs.fcbs.fcb (codes "/dev/tty") (root_mount ∷ dev_mount ∷ [])
      dev_mount 1 5 find_mount-dev

mtab_add-Added_example :
    Added (service []) (mtab_add 1 zeros zeros 2 (codes "/dev/root") (codes "/") (service []))
mtab_add-Added_example = mtab_add-Added 1 zeros zeros 2 (codes "/dev/root") (codes "/") (service [])

fstab_turn_line_example :
    fstab_turn (codes "/d / rw 1\n")
    ≡ record { rest = codes "\n"; entry = some (codes "/d", codes "/", codes "rw", 49) }
fstab_turn_line_example =
    fstab_turn_line 47 47 114 49 (codes "d") [] (codes "w") (codes "\n")
      (refl, λ e. absurd (ground arith), (refl, λ e. absurd (ground arith), tt))
      (refl, λ e. absurd (ground arith), tt)
      (refl, λ e. absurd (ground arith), (refl, λ e. absurd (ground arith), tt))
      (λ e. absurd (ground arith)) (refl, λ e. absurd (ground arith))

-- A block that begins where a shorter buffer does is read without the bytes that wait there.
merge_short :
    merge 0 4 (9 ∷ 9 ∷ 9 ∷ 9 ∷ []) (record { offs = 0; bytes = 5 ∷ 6 ∷ [] } ∷ [])
    ≡ (9 ∷ 9 ∷ 9 ∷ 9 ∷ [], record { offs = 0; bytes = 5 ∷ 6 ∷ [] } ∷ [])
unfolding merge
merge_short = refl

-- A line of three fields takes the next line for its end.
fstab_turn-short :
    fstab_turn (codes "/d / rw\n/e /f ro 1\n")
    ≡ record { rest = codes "f ro 1\n"; entry = some (codes "/d", codes "/", codes "rw\n/e", 47) }
unfolding fstab_turn skip_white fstab_fields field field_of word skip_space with_dev with_file
    with_opts
fstab_turn-short = refl

-- `/` is mounted, and with it `/dev/`.
mtab_add-root :
    (v : Vfs) × (mtab_add 1 zeros zeros 2 (codes "/dev/root") (codes "/") (service [])
      ≡ some (minus_one_16, v))
    × (v.mtab ≡ root_mount ∷ dev_mount ∷ [])
unfolding mtab_add mount_path_on mount_detected mount storage_entry directory_entry fcb_get get_from
    matches strcmp fsdrv_detect detected readblock read_device read_memory mem_device detect_from
    mount_index place_mount replace_mount update mount_entry has devfs_used
mtab_add-root = (_, refl, refl)

-- Of two mounts of a device that follow each other the second one stays.
del_mounts-two :
    (t : Fcbs) × (del_mounts 1 2
        (root_mount ∷ record root_mount { mountpoint = 1 } ∷ [])
        (service []).fs.fcbs
      ≡ some (record root_mount { mountpoint = 1 } ∷ [], t))
unfolding del_mounts fcb_del del_union
del_mounts-two = (_, refl)

-- The directory of devices has one entry, at its start.
devfs_getdirent-first :
    devfs_getdirent 0 (service [])
    ≡ some (1, some (record { d_ino = 0; d_filesize = 8; is_char = false; d_name = codes "root" }))
unfolding devfs_getdirent first_device
devfs_getdirent-first = refl

devfs_getdirent-end : devfs_getdirent 1 (service []) ≡ some (0, none)
unfolding devfs_getdirent first_device
devfs_getdirent-end = refl
