-- ===== src/Base/Errno.antt =====
-- The error numbers of etc/include/errno.h.
use Prim.Native.Nat.{ℕ}

abbrev pub success : ℕ
success = 0

abbrev pub eperm : ℕ
eperm = 1

abbrev pub esrch : ℕ
esrch = 3

abbrev pub efault : ℕ
efault = 4

abbrev pub einval : ℕ
einval = 5

abbrev pub ebusy : ℕ
ebusy = 6

abbrev pub eacces : ℕ
eacces = 7

abbrev pub enoent : ℕ
enoent = 11

abbrev pub erofs : ℕ
erofs = 19

abbrev pub espipe : ℕ
espipe = 24

abbrev pub enotshm : ℕ
enotshm = 25

abbrev pub ebadf : ℕ
ebadf = 26
