-- ===== src/Memory.antt =====
-- The structures of cinq_meta.h and vfs.h, and the memory that holds them.
--
-- Each kind of structure has a store from addresses. At an address with no such structure (NULL,
-- META_FS, freed memory) the store has none, and a read or a write through it is a fault. Locks
-- are not kept, nor fields that nothing reads (d_flags, t_file_handle, ...).
pub mod Actions
pub mod Steady
use cinquain_meta.Common.{ℕ, ◌-◌, ◌^◌, Option, List}
use cinquain_meta.Containers.{Ptr, Table}

-- (void *)-EPERM, the parent of every root file system node
unfoldable pub meta_fs : Ptr
meta_fs = 2 ^ 64 - 1

-- struct cinq_fsnode
pub record Fsnode : Type 0 where
  pub fs_id : ℕ
  pub fs_name : List ℕ
  pub fs_parent : Ptr
  pub fs_root : Ptr
  pub fs_children : Table

-- struct cinq_tag
pub record Tag : Type 0 where
  pub t_fs : Ptr
  pub t_host : Ptr
  pub t_inode : Ptr
  pub t_nchild : ℕ
  pub t_count : ℕ
  pub t_mode : ℕ
  pub t_symname : Option (List ℕ)

-- struct cinq_inode
pub record Cnode : Type 0 where
  pub ci_id : ℕ
  pub ci_name : List ℕ
  pub ci_tags : Table
  pub ci_parent : Ptr
  pub ci_children : Table
  pub ci_count : ℕ

-- the operation tables that an inode may have
pub data InodeOperations : Type 0 where
  empty_iops dir_iops file_iops symlink_iops : InodeOperations

pub data FileOperations : Type 0 where
  empty_fops dir_fops file_fops : FileOperations

-- struct inode
pub record Inode : Type 0 where
  pub i_mode : ℕ
  pub i_uid : ℕ
  pub i_gid : ℕ
  pub i_op : InodeOperations
  pub i_fop : FileOperations
  pub i_sb : Ptr
  pub i_dentry : List Ptr
  pub i_ino : Ptr
  pub i_count : ℕ
  pub i_nlink : ℕ
  pub i_writecount : ℕ
  pub i_size : ℕ
  pub i_atime : ℕ
  pub i_mtime : ℕ
  pub i_ctime : ℕ
  pub i_rdev : ℕ
  pub i_blkbits : ℕ
  pub i_blocks : ℕ

-- struct qstr
pub record Qstr : Type 0 where
  pub hash : ℕ
  pub len : ℕ
  pub name : List ℕ

-- struct dentry
pub record Dentry : Type 0 where
  pub d_parent : Ptr
  pub d_name : Qstr
  pub d_inode : Ptr
  pub d_count : ℕ
  pub d_sb : Ptr
  pub d_fsdata : Ptr
  pub d_subdirs : List Ptr

-- The memory, the table `file_systems.cfs_table`, the state of `malloc` (the next address, and how
-- many allocations will succeed) and the clock that CURRENT_TIME reads.
pub record State : Type 0 where
  pub fsnodes : Ptr → Option Fsnode
  pub tags : Ptr → Option Tag
  pub cnodes : Ptr → Option Cnode
  pub inodes : Ptr → Option Inode
  pub dentries : Ptr → Option Dentry
  pub cfs_table : Table
  pub brk : Ptr
  pub avail : ℕ
  pub now : ℕ
