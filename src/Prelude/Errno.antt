-- ===== src/Prelude/Errno.antt =====
-- The error numbers of kernel-aarch64/include/errno.h that the models return.
use Prim.Native.Nat.{ℕ}

abbrev pub enoent : ℕ
enoent = 2

abbrev pub esrch : ℕ
esrch = 3

abbrev pub ebadf : ℕ
ebadf = 9

abbrev pub echild : ℕ
echild = 10

abbrev pub eagain : ℕ
eagain = 11

abbrev pub enomem : ℕ
enomem = 12

abbrev pub efault : ℕ
efault = 14

abbrev pub eexist : ℕ
eexist = 17

abbrev pub einval : ℕ
einval = 22

abbrev pub emfile : ℕ
emfile = 24

abbrev pub epipe : ℕ
epipe = 32

abbrev pub enametoolong : ℕ
enametoolong = 36

abbrev pub enosys : ℕ
enosys = 38

abbrev pub enotempty : ℕ
enotempty = 39

abbrev pub eaddrinuse : ℕ
eaddrinuse = 98

abbrev pub etimedout : ℕ
etimedout = 110
