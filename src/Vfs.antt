-- ===== src/Vfs.antt =====
-- vfs.h and vfs.c: the parts of the Linux VFS that the program brings along, on inodes and modes.
use cinquain_meta.Common.{
  ℕ, ◌+◌, ◌-◌, ◌*◌, ◌/◌, ◌%◌, ◌^◌, Bool, some, [], ◌==◌, if◌then◌else◌, inc32, dec32,
}
use Prim.Native.Nat.{bit_or}
use cinquain_meta.Containers.{Ptr, null}
use cinquain_meta.Memory.{Inode, empty_iops, empty_fops}
use cinquain_meta.Memory.Actions.{M, fault, pure, skip, ◌>>=◌, ◌>>◌, store_inode, set_inode, malloc}

-- The bits of S_IFMT in a mode, as a number below 16.
abbrev pub file_type : ℕ → ℕ
file_type mode = mode / 2 ^ 12 % 16

abbrev pub s_isdir : ℕ → Bool
s_isdir mode = file_type mode == 4

abbrev pub s_isreg : ℕ → Bool
s_isreg mode = file_type mode == 8

abbrev pub s_islnk : ℕ → Bool
s_islnk mode = file_type mode == 10

-- (mode & ~S_IFMT) | S_IFDIR
abbrev pub as_dir_mode : ℕ → ℕ
as_dir_mode mode = mode - file_type mode * 2 ^ 12 + 0x4000

abbrev pub s_ifdir : ℕ
s_ifdir = 0x4000

abbrev pub s_ifreg : ℕ
s_ifreg = 0x8000

abbrev pub s_iflnk : ℕ
s_iflnk = 0xa000

abbrev pub s_irwxugo : ℕ
s_irwxugo = 0x1ff

abbrev pub s_isgid : ℕ
s_isgid = 0x400

unfoldable pub inc_nlink : Ptr → M (Unit {0})
inc_nlink p = set_inode p (λ i. record i { i_nlink = inc32 i.i_nlink })

unfoldable pub drop_nlink : Ptr → M (Unit {0})
drop_nlink p = set_inode p (λ i. record i { i_nlink = dec32 i.i_nlink })

unfoldable pub ihold : Ptr → M (Unit {0})
ihold p = set_inode p (λ i. record i { i_count = inc32 i.i_count })

-- The last reference hands the inode to cinq_destroy_inode, which does nothing.
unfoldable pub iput : Ptr → M (Unit {0})
iput p = if p == null then skip else set_inode p (λ i. record i { i_count = dec32 i.i_count })

abbrev page_cache_shift : ℕ
page_cache_shift = 13

-- What inode_init_always_ leaves in a new inode; sb->s_blocksize_bits is what cinq_fill_super_ has set.
abbrev pub blank_inode : Ptr → Inode
blank_inode sb = record {
  i_mode = 0;
  i_uid = 0;
  i_gid = 0;
  i_op = empty_iops;
  i_fop = empty_fops;
  i_sb = sb;
  i_dentry = [];
  i_ino = 0;
  i_count = 1;
  i_nlink = 1;
  i_writecount = 0;
  i_size = 0;
  i_atime = 0;
  i_mtime = 0;
  i_ctime = 0;
  i_rdev = 0;
  i_blkbits = page_cache_shift;
  i_blocks = 0;
}

-- new_inode, through alloc_inode_ and cinq_alloc_inode, which writes to what malloc returned
-- without a test for NULL.
unfoldable pub new_inode : Ptr → M Ptr
new_inode sb = do
  p ← malloc
  if p == null then (λ _. fault) else do store_inode p (some (blank_inode sb)); pure p

-- (dir->i_mode & S_ISGID)
abbrev has_sgid : ℕ → Bool
has_sgid mode = mode / 2 ^ 10 % 2 == 1

-- inode_init_owner with a directory given: a new inode's owner, group and mode. The user and the
-- group of the caller, current_fsuid and current_fsgid, are 0.
abbrev pub init_owner : Inode → ℕ → Inode → Inode
init_owner dir mode i =
    if has_sgid dir.i_mode
    then record i {
      i_uid = 0;
      i_gid = dir.i_gid;
      i_mode = if s_isdir mode then bit_or mode s_isgid else mode;
    }
    else record i { i_uid = 0; i_gid = 0; i_mode = mode }
