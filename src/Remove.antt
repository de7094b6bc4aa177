-- ===== src/Remove.antt =====
-- cnode.c: cinq_unlink and cinq_rmdir.
pub mod Unlink
pub mod Own
pub mod Detach
pub mod Dir
pub mod Empty
use cinquain_meta.Common.{ℕ, Bool, true, false, Option, none, some, ◌==◌, ◌||◌, not, if◌then◌else◌}
use cinquain_meta.Containers.{Ptr, null, Library}
use cinquain_meta.Errno.{Status, success, failure, einval, enospc, enotempty}
use cinquain_meta.Memory.Actions.{
  M, pure, skip, ◌>>=◌, ◌>>◌, tag_at, set_inode, dentry_at, set_dentry, current_time,
}
use cinquain_meta.Vfs.{drop_nlink}
use cinquain_meta.Tag.{
  cinq_visible, i_cnode, i_fs, tag_new_with, tag_drop_inode, cnode_find_tag, cnode_add_tag,
}
use cinquain_meta.Cnode.{cnode_find_child, foreach_ancestor_tag}
use cinquain_meta.Refs.{local_drop_ref}
use cinquain_meta.Create.{touch_dir}

-- if (!dentry->d_fsdata) dentry->d_fsdata = dentry->d_parent->d_fsdata;
abbrev pub default_request : Ptr → M Ptr
default_request dentry = do
  d ← dentry_at dentry
  if d.d_fsdata == null
      then (do
        p ← dentry_at d.d_parent
        set_dentry dentry (λ e. record e { d_fsdata = p.d_fsdata })
        pure p.d_fsdata)
      else pure d.d_fsdata

-- if (tag) { num = atomic_read(&tag->t_nchild); if (num) break; }
abbrev pub nonzero_nchild : Ptr → M (Option ℕ)
nonzero_nchild tag =
    if tag == null
    then pure none
    else do t ← tag_at tag; pure (if t.t_nchild == 0 then none else some t.t_nchild)

-- inode->i_ctime = dir->i_ctime = dir->i_mtime = CURRENT_TIME;
unfoldable pub stamp : Ptr → Ptr → M (Unit {0})
stamp inode dir = do
  now ← current_time
  set_inode inode (λ i. record i { i_ctime = now })
  touch_dir dir

is_none : Option ℕ → Bool
is_none none = true
is_none (some _) = false

module _ ⦃u : Library⦄ where
  -- The part of cinq_unlink under the lock: the file system gets a negative tag.
  unfoldable pub detach : Ptr → Ptr → Ptr → Ptr → M Status
  unfolding cnode_find_tag tag_new_with cnode_add_tag tag_drop_inode local_drop_ref
  detach dir dentry cnode fs = do
    tag ← cnode_find_tag cnode fs
    if tag == null
        then (do
          new_tag ← tag_new_with fs null cinq_visible
          if new_tag == null
              then pure (failure enospc)
              else do cnode_add_tag cnode new_tag; pure success)
        else (do
          t ← tag_at tag
          (if t.t_inode == null then skip else do tag_drop_inode tag; local_drop_ref dir dentry)
          pure success)

  unfoldable pub cinq_unlink : Ptr → Ptr → M Status
  unfolding i_cnode cnode_find_child detach stamp
  cinq_unlink dir dentry = do
    d ← dentry_at dentry
    dir_cnode ← i_cnode dir
    cnode ← cnode_find_child dir_cnode d.d_name.name
    if (d.d_inode == null) || (cnode == null) then pure (failure einval) else do
      fs ← default_request dentry
      r ← detach dir dentry cnode fs
      elim r [ failure e ↦ pure (failure e) | success ↦ do stamp d.d_inode dir; pure success ]

  unfoldable pub cinq_empty_dir : ℕ → Ptr → Ptr → M Bool
  unfolding cnode_find_tag foreach_ancestor_tag is_none
  cinq_empty_dir fuel dir_cnode fs = do
    tag ← cnode_find_tag dir_cnode fs
    r ← foreach_ancestor_tag fuel dir_cnode fs tag nonzero_nchild
    pure (is_none r)

  unfoldable pub cinq_rmdir : ℕ → Ptr → Ptr → M Status
  unfolding i_cnode i_fs cnode_find_child cinq_empty_dir drop_nlink cinq_unlink
  cinq_rmdir fuel dir dentry = do
    d ← dentry_at dentry
    req_fs ← default_request dentry
    dir_cnode ← i_cnode dir
    cnode ← cnode_find_child dir_cnode d.d_name.name
    empty ← cinq_empty_dir fuel cnode req_fs
    if not empty then pure (failure enotempty) else do
      fs ← i_fs d.d_inode
      (if fs == req_fs then drop_nlink d.d_inode else skip)
      err ← cinq_unlink dir dentry
      elim err [
        | failure e ↦ pure (failure e)
        | success ↦ do
          after ← i_fs d.d_inode
          (if after == req_fs then drop_nlink dir else skip)
          pure success
      ]
