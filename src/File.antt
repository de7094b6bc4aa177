-- ===== src/File.antt =====
-- struct file of vfs.h. An operation takes the open file as a value and returns it as it leaves it.
--
-- Offsets and positions are the bit patterns of a loff_t: negative from 2 ^ 63 on.
use cinquain_meta.Common.{ℕ, ◌^◌, Bool, leb}
use cinquain_meta.Containers.{Ptr, null}
use cinquain_meta.Memory.{FileOperations, empty_fops}

pub record File : Type 0 where
  pub f_dentry : Ptr
  pub f_op : FileOperations
  pub f_flags : ℕ
  pub f_mode : ℕ
  pub f_pos : ℕ
  pub private_data : Ptr

-- What malloc leaves is not defined; each field is set before it is read.
abbrev pub blank_file : File
blank_file = record {
  f_dentry = null;
  f_op = empty_fops;
  f_flags = 0;
  f_mode = 0;
  f_pos = 0;
  private_data = null;
}

-- a negative loff_t
abbrev pub is_negative : ℕ → Bool
is_negative n = leb (2 ^ 63) n
