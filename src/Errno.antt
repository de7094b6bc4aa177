-- ===== src/Errno.antt =====
-- Error numbers, and the `int` that an operation returns: 0, or an error number negated.

pub data Errno : Type 0 where
  enomem einval enospc enametoolong enotempty enfile etxtbsy eoverflow : Errno

pub data Status : Type 0 where
  success : Status
  failure : Errno → Status

-- A value, or an error number: a pointer from ERR_PTR, and an `int` that is both.
pub data Result (A : Type 0) : Type 0 where
  ok : A → Result A
  err : Errno → Result A
