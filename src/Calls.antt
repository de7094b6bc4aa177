-- ===== src/Calls.antt =====
-- cinq_meta.c, cinq_dir_inode_operations: the calls that the VFS makes on a directory.
use cinquain_meta.Common.{ℕ, Option, List}
use cinquain_meta.Containers.{Ptr, Library}
use cinquain_meta.Memory.Actions.{M, skip, ◌>>◌}
use cinquain_meta.Create.{cinq_create, cinq_mknod, cinq_symlink}
use cinquain_meta.Mkdir.{cinq_mkdir}
use cinquain_meta.Lookup.{cinq_lookup}
use cinquain_meta.Link.{cinq_link, cinq_rename}
use cinquain_meta.Remove.{cinq_unlink, cinq_rmdir}
use cinquain_meta.Attr.{Iattr, cinq_setattr}

-- an entry of the table, with its arguments
pub data Call : Type 0 where
  create : (dir dentry : Ptr) (mode : ℕ) (nameidata : Option Ptr) → Call
  lookup : (dir dentry : Ptr) (nameidata : Option Ptr) → Call
  link : (old_dentry dir dentry : Ptr) → Call
  unlink : (dir dentry : Ptr) → Call
  symlink : (dir dentry : Ptr) (symname : List ℕ) → Call
  mkdir : (dir dentry : Ptr) (mode : ℕ) → Call
  mknod : (dir dentry : Ptr) (mode : ℕ) → Call
  rmdir : (dir dentry : Ptr) → Call
  rename : (old_dir old_dentry new_dir new_dentry : Ptr) → Call
  setattr : (dentry : Ptr) (attr : Iattr) → Call

module _ ⦃u : Library⦄ where
  -- The function of an entry, called; its result is not kept.
  unfoldable pub perform : ℕ → Call → M (Unit {0})
  unfolding cinq_create cinq_lookup cinq_link cinq_unlink cinq_symlink cinq_mkdir cinq_mknod
      cinq_rmdir cinq_rename cinq_setattr
  perform fuel (create dir dentry mode nameidata) = do
    cinq_create fuel dir dentry mode nameidata
    skip
  perform fuel (lookup dir dentry nameidata) = do cinq_lookup fuel dir dentry nameidata; skip
  perform fuel (link old_dentry dir dentry) = do cinq_link fuel old_dentry dir dentry; skip
  perform fuel (unlink dir dentry) = do cinq_unlink dir dentry; skip
  perform fuel (symlink dir dentry symname) = do cinq_symlink fuel dir dentry symname; skip
  perform fuel (mkdir dir dentry mode) = do cinq_mkdir fuel dir dentry mode; skip
  perform fuel (mknod dir dentry mode) = do cinq_mknod fuel dir dentry mode; skip
  perform fuel (rmdir dir dentry) = do cinq_rmdir fuel dir dentry; skip
  perform fuel (rename old_dir old_dentry new_dir new_dentry) = do
    cinq_rename fuel old_dir old_dentry new_dir new_dentry
    skip
  perform fuel (setattr dentry attr) = do cinq_setattr dentry attr; skip
