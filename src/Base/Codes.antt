-- ===== src/Base/Codes.antt =====
-- The negative error codes that the driver returns. `other` is a code that a kernel service
-- returned and the driver passes on.
use Prim.Native.Nat.{ℕ}

pub data Errno : Type 0 where
  eperm enoent eio eagain enomem efault ebusy enodev einval enospc enotty etimedout enotconn : Errno
  other : ℕ → Errno

-- What an ioctl handler returns: 0, or a negative code.
pub data Status : Type 0 where
  ok : Status
  err : Errno → Status
