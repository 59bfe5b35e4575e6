-- ===== src/Fs/Samples.antt =====
-- Sample entries, drivers and states for the tests of the file system service.
use osz.Base.{ℕ, true, false, Option, none, some, List, [], ◌∷◌}
use osz.Base.Text.{codes}
use osz.Fcb.{Fcb, WriteBuf}
use osz.Fs.{minus_one, minus_one_16, Driver, Fs}

abbrev pub entry : Option (List ℕ) → (nopen type : ℕ) → Fcb
entry path n t = record {
  abspath = path;
  nopen = n;
  type = t;
  flags = 0;
  fs = 0;
  mode = 3;
  storage = 1;
  inode = 0;
  filesize = 4096;
  blksize = 4;
  unionlist = none;
  buf = [];
}

abbrev pub root_dir : Fcb
root_dir = record (entry (some (codes "/")) 2 1) { storage = minus_one }

abbrev pub disk : Fcb
disk = entry (some (codes "/dev/disk")) 1 3

abbrev pub file_with : List WriteBuf → Fcb
file_with bs = record (entry (some (codes "/a")) 1 0) { buf = bs }

-- A driver that has every block at hand, filled with nines, and accepts every write.
abbrev pub memory_driver : Driver
memory_driver = record {
  name = codes "memfs";
  detect = some (λ dev blk. true);
  has_locate = true;
  read =
      some
        (λ fd inode offs n. record { blk = some (9 ∷ 9 ∷ 9 ∷ 9 ∷ []); size = 4; delayed = false });
  write = some (λ fd inode offs bytes. true);
  has_writetrb = true;
  has_writetre = false;
}

-- A service with the entries `/`, `/dev/disk` and one more.
abbrev pub service : Fcb → Fs
service f = record {
  fcbs = record { fcb = root_dir ∷ disk ∷ f ∷ []; nfiles = 3 };
  fsdrv = memory_driver ∷ [];
  devfsidx = minus_one_16;
  fsck_dev = minus_one;
  errno = 0;
  ackdelayed = false;
  workleft = minus_one;
  calls = [];
}
