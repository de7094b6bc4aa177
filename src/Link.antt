-- ===== src/Link.antt =====
-- cnode.c: cinq_link, cinq_rename, and cinq_follow_link.
pub mod Place
pub mod Tagged
pub mod Kept
pub mod Retag
pub mod Rename
pub mod Linked
pub mod Hard
pub mod Readlink
use cinquain_meta.Common.{ℕ, Bool, false, Option, none, some, List, ◌==◌, not, if◌then◌else◌}
use cinquain_meta.Containers.{Ptr, null, Library}
use cinquain_meta.Errno.{Status, success, failure, einval, enospc, enotempty}
use cinquain_meta.Memory.Actions.{
  M, pure, ◌>>=◌, ◌>>◌, tag_at, inode_at, set_inode, dentry_at, set_dentry, current_time,
}
use cinquain_meta.Vfs.{s_isdir, inc_nlink, drop_nlink, ihold, iput}
use cinquain_meta.Dcache.{d_instantiate, dget}
use cinquain_meta.Tag.{
  cinq_visible, i_tag, i_cnode, tag_new_with, tag_reset_inode, cnode_find_tag, cnode_add_tag,
}
use cinquain_meta.Cnode.{cnode_new, cnode_find_child, cnode_add_child}
use cinquain_meta.Refs.{local_inc_ref}
use cinquain_meta.Create.{touch_dir, take_request}
use cinquain_meta.Remove.{cinq_empty_dir, cinq_unlink}

module _ ⦃u : Library⦄ where
  unfoldable pub tag_child_with : Ptr → Ptr → Ptr → M Status
  unfolding cnode_find_tag tag_new_with cnode_add_tag tag_reset_inode
  tag_child_with child req_fs inode = do
    tag ← cnode_find_tag child req_fs
    if tag == null
        then (do
          new_tag ← tag_new_with req_fs inode cinq_visible
          if new_tag == null
              then pure (failure enospc)
              else do cnode_add_tag child new_tag; pure success)
        else (do tag_reset_inode tag inode; pure success)

  -- "Finds or creates a tag specified by dir and dentry. Associates the tag with the specified
  -- inode."
  unfoldable pub cinq_tag_with : Ptr → Ptr → Ptr → M Status
  unfolding i_cnode cnode_find_child tag_child_with cnode_new tag_new_with cnode_add_tag
      cnode_add_child
  cinq_tag_with dir dentry inode = do
    d ← dentry_at dentry
    dir_cnode ← i_cnode dir
    child ← cnode_find_child dir_cnode d.d_name.name
    if child == null
        then (do
          new_child ← cnode_new d.d_name.name
          if new_child == null then pure (failure enospc) else do
            tag ← tag_new_with d.d_fsdata inode cinq_visible
            if tag == null then pure (failure enospc) else do
              cnode_add_tag new_child tag
              cnode_add_child dir_cnode new_child
              pure success)
        else tag_child_with child d.d_fsdata inode

  unfoldable pub cinq_link : ℕ → Ptr → Ptr → Ptr → M Status
  unfolding inc_nlink ihold take_request cinq_tag_with d_instantiate dget local_inc_ref drop_nlink
      iput
  cinq_link fuel old_dentry dir dentry = do
    o ← dentry_at old_dentry
    let inode = o.d_inode
    if inode == null then pure (failure einval) else do
      now ← current_time
      touch_dir dir
      set_inode inode (λ i. record i { i_ctime = now })
      inc_nlink inode
      ihold inode
      take_request dentry none
      err ← cinq_tag_with dir dentry inode
      elim err [
        | success ↦ do
          d_instantiate dentry inode
          dget dentry
          local_inc_ref fuel dir dentry
          pure success
        | failure e ↦ do drop_nlink inode; iput inode; pure (failure e)
      ]

  -- The target has a tag of the file system that makes the request.
  unfoldable pub own_tag : Ptr → Ptr → M (Option Ptr)
  unfolding i_tag
  own_tag inode req_fs =
      if inode == null
      then pure none
      else do tag ← i_tag inode; t ← tag_at tag; pure (if t.t_fs == req_fs then some tag else none)

  -- a directory that is not empty
  unfoldable pub occupied : ℕ → Ptr → Ptr → M Bool
  unfolding i_cnode cinq_empty_dir
  occupied fuel inode req_fs = do
    i ← inode_at inode
    if s_isdir i.i_mode
        then (do cnode ← i_cnode inode; empty ← cinq_empty_dir fuel cnode req_fs; pure (not empty))
        else pure false

  -- The results of cinq_tag_with_ and of cinq_unlink are not looked at.
  unfoldable pub cinq_rename : ℕ → Ptr → Ptr → Ptr → Ptr → M Status
  unfolding own_tag occupied tag_reset_inode cinq_tag_with cinq_unlink
  cinq_rename fuel old_dir old_dentry new_dir new_dentry = do
    n ← dentry_at new_dentry
    o ← dentry_at old_dentry
    set_dentry new_dentry (λ d. record d { d_fsdata = o.d_fsdata })
    if o.d_fsdata == null then pure (failure einval) else do
      target ← own_tag n.d_inode o.d_fsdata
      elim target [
        | some new_tag ↦ do
          full ← occupied fuel n.d_inode o.d_fsdata
          if full then pure (failure enotempty) else do
            tag_reset_inode new_tag o.d_inode
            cinq_unlink old_dir old_dentry
            pure success
        | none ↦ do
          cinq_tag_with new_dir new_dentry o.d_inode
          cinq_unlink old_dir old_dentry
          pure success
      ]

unfoldable pub cinq_follow_link : Ptr → M (Option (List ℕ))
unfolding i_tag
cinq_follow_link dentry = do
  d ← dentry_at dentry
  tag ← i_tag d.d_inode
  t ← tag_at tag
  pure t.t_symname
