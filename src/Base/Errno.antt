-- ===== src/Base/Errno.antt =====
-- The error numbers of FreeBSD's sys/errno.h that the drivers return; 0 is success.
use Prim.Native.Nat.{ℕ}

abbrev pub eperm : ℕ
eperm = 1

abbrev pub eio : ℕ
eio = 5

abbrev pub enxio : ℕ
enxio = 6

abbrev pub enomem : ℕ
enomem = 12

abbrev pub enodev : ℕ
enodev = 19

abbrev pub einval : ℕ
einval = 22

abbrev pub eagain : ℕ
eagain = 35

abbrev pub eopnotsupp : ℕ
eopnotsupp = 45

abbrev pub enobufs : ℕ
enobufs = 55

abbrev pub etimedout : ℕ
etimedout = 60

abbrev pub enoent : ℕ
enoent = 2

abbrev pub efbig : ℕ
efbig = 27

abbrev pub eftype : ℕ
eftype = 79
