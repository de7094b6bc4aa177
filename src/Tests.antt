-- ===== src/Tests.antt =====
-- Concrete inputs: a memory with two file systems, `b` below `a`, that share a directory. In the
-- directory are a file `f` and a directory `d` with a child, both made by `a`.
pub mod Trees
pub mod Names
pub mod Removals
mod Reaches
mod Links
mod Directories
mod Calls
mod Queues
mod Mounts
mod Opens
mod Files
use cinquain_meta.Common.{none, some, [], ◌∷◌, ◌==◌, if◌then◌else◌}
use cinquain_meta.Containers.{null, by_ptr, by_str}
use cinquain_meta.Memory.{
  State, Fsnode, Tag, Cnode, Inode, Dentry, meta_fs, dir_iops, file_iops, dir_fops, file_fops,
}

abbrev pub node_a : Fsnode
node_a = record {
  fs_id = 10;
  fs_name = 0x61 ∷ [];
  fs_parent = meta_fs;
  fs_root = 60;
  fs_children = (by_ptr 11, 11) ∷ [];
}

abbrev pub node_b : Fsnode
node_b = record { fs_id = 11; fs_name = 0x62 ∷ []; fs_parent = 10; fs_root = 61; fs_children = [] }

abbrev pub dir_tag : Tag
dir_tag = record {
  t_fs = 11;
  t_host = 20;
  t_inode = 41;
  t_nchild = 0;
  t_count = 0;
  t_mode = 0;
  t_symname = none;
}

abbrev pub file_tag : Tag
file_tag = record {
  t_fs = 10;
  t_host = 21;
  t_inode = 43;
  t_nchild = 0;
  t_count = 0;
  t_mode = 0;
  t_symname = none;
}

abbrev pub sub_tag : Tag
sub_tag = record file_tag { t_host = 22; t_inode = 44; t_nchild = 1 }

abbrev pub dir_cnode : Cnode
dir_cnode = record {
  ci_id = 20;
  ci_name = 0x2f ∷ [];
  ci_tags = (by_ptr 11, 31) ∷ [];
  ci_parent = 20;
  ci_children = (by_str (0x66 ∷ []), 21) ∷ (by_str (0x64 ∷ []), 22) ∷ [];
  ci_count = 0;
}

abbrev pub file_cnode : Cnode
file_cnode = record {
  ci_id = 21;
  ci_name = 0x66 ∷ [];
  ci_tags = (by_ptr 10, 33) ∷ [];
  ci_parent = 20;
  ci_children = [];
  ci_count = 0;
}

abbrev pub sub_cnode : Cnode
sub_cnode = record file_cnode { ci_id = 22; ci_name = 0x64 ∷ []; ci_tags = (by_ptr 10, 34) ∷ [] }

abbrev pub dir_inode : Inode
dir_inode = record {
  i_mode = 0x41ff;
  i_uid = 0;
  i_gid = 0;
  i_op = dir_iops;
  i_fop = dir_fops;
  i_sb = 90;
  i_dentry = [];
  i_ino = 31;
  i_count = 2;
  i_nlink = 2;
  i_writecount = 0;
  i_size = 0;
  i_atime = 0;
  i_mtime = 0;
  i_ctime = 0;
  i_rdev = 0;
  i_blkbits = 13;
  i_blocks = 0;
}

abbrev pub sub_inode : Inode
sub_inode = record dir_inode { i_ino = 34 }

abbrev pub file_inode : Inode
file_inode = record {
  i_mode = 0x81ff;
  i_uid = 0;
  i_gid = 0;
  i_op = file_iops;
  i_fop = file_fops;
  i_sb = 90;
  i_dentry = [];
  i_ino = 33;
  i_count = 2;
  i_nlink = 1;
  i_writecount = 0;
  i_size = 0;
  i_atime = 0;
  i_mtime = 0;
  i_ctime = 0;
  i_rdev = 0;
  i_blkbits = 13;
  i_blocks = 0;
}

-- the dentry of a new name `g`, and that of `f`
abbrev pub new_dentry : Dentry
new_dentry = record {
  d_parent = 52;
  d_name = record { hash = 0; len = 1; name = 0x67 ∷ [] };
  d_inode = null;
  d_count = 1;
  d_sb = 90;
  d_fsdata = 11;
  d_subdirs = [];
}

abbrev pub file_dentry : Dentry
file_dentry = record {
  d_parent = 52;
  d_name = record { hash = 0; len = 1; name = 0x66 ∷ [] };
  d_inode = 43;
  d_count = 1;
  d_sb = 90;
  d_fsdata = 11;
  d_subdirs = [];
}

-- the dentry of `d`, and that of `f` as `a` asks for it
abbrev pub sub_dentry : Dentry
sub_dentry = record file_dentry {
  d_name = record { hash = 0; len = 1; name = 0x64 ∷ [] };
  d_inode = 44;
}

abbrev pub own_dentry : Dentry
own_dentry = record file_dentry { d_fsdata = 10; d_inode = null }

-- the dentry of the directory
abbrev pub dir_dentry : Dentry
dir_dentry = record file_dentry {
  d_parent = 56;
  d_name = record { hash = 0; len = 1; name = 0x2f ∷ [] };
  d_inode = 41;
}

-- the dentry of `f` where it is not known yet
abbrev pub over_dentry : Dentry
over_dentry = record file_dentry { d_inode = null }

abbrev pub long_dentry : Dentry
long_dentry = record new_dentry { d_name = record { hash = 0; len = 256; name = 0x67 ∷ [] } }

abbrev pub memory : State
memory = record {
  fsnodes = λ p. if p == 10 then some node_a else if p == 11 then some node_b else none;
  tags = λ p.
      if p == 31
      then some dir_tag
      else if p == 33
      then some file_tag
      else if p == 34
      then some sub_tag
      else none;
  cnodes = λ p.
      if p == 20
      then some dir_cnode
      else if p == 21
      then some file_cnode
      else if p == 22
      then some sub_cnode
      else none;
  inodes = λ p.
      if p == 41
      then some dir_inode
      else if p == 43
      then some file_inode
      else if p == 44
      then some sub_inode
      else none;
  dentries = λ p.
      if p == 50
      then some new_dentry
      else if p == 51
      then some file_dentry
      else if p == 52
      then some long_dentry
      else if p == 53
      then some own_dentry
      else if p == 54
      then some sub_dentry
      else if p == 55
      then some over_dentry
      else if p == 56
      then some dir_dentry
      else none;
  cfs_table = (by_str (0x61 ∷ []), 10) ∷ (by_str (0x62 ∷ []), 11) ∷ [];
  brk = 100;
  avail = 8;
  now = 5;
}
