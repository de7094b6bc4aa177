-- ===== src/Create.antt =====
-- cnode.c: the operations that make a file, a directory, a node or a symbolic link.
pub mod Steps
pub mod Request
pub mod Made
pub mod Found
pub mod Exists
pub mod Attach
pub mod Over
use cinquain_meta.Common.{
  ℕ, zero, suc, ◌/◌, ◌^◌, Bool, true, false, Option, none, some, List, [], ◌∷◌, ◌==◌, ltb, ◌&&◌,
  not, if◌then◌else◌, inc32, length, str_eq,
}
use Prim.Native.Nat.{bit_or}
use cinquain_meta.Containers.{Ptr, null, Library}
use cinquain_meta.Errno.{Status, success, failure, einval, enospc, enametoolong}
use cinquain_meta.Memory.{meta_fs}
use cinquain_meta.Memory.Actions.{
  M, fault, pure, skip, ◌>>=◌, ◌>>◌, tag_at, set_tag, cnode_at, set_cnode, inode_at, set_inode,
  dentry_at, set_dentry, fsnode_at, set_fsnode, malloc, current_time,
}
use cinquain_meta.Vfs.{s_ifdir, s_ifreg, s_iflnk, s_irwxugo, iput}
use cinquain_meta.Dcache.{d_instantiate, dget}
use cinquain_meta.Fsnode.{max_name_len, cfs_find, fsnode_new, fsnode_move}
use cinquain_meta.Tag.{
  i_tag, i_cnode, inode_meta_root, negative, tag_new, cnode_find_tag, cnode_add_tag, cnode_rm_tag,
}
use cinquain_meta.Cnode.{cnode_new, cnode_find_child, cnode_add_child}
use cinquain_meta.Refs.{cinq_get_inode, local_inc_ref}

-- mode >> CINQ_MODE_SHIFT
abbrev pub visibility : ℕ → ℕ
visibility mode = mode / 2 ^ 30

-- dir->i_mtime = dir->i_ctime = CURRENT_TIME;
abbrev pub touch_dir : Ptr → M (Unit {0})
touch_dir dir = do
  now ← current_time
  set_inode dir (λ i. record i { i_mtime = now; i_ctime = now })

module _ ⦃u : Library⦄ where
  -- Puts the new tag into the cnode that has the name, in place of a negative tag of the same file
  -- system; a tag with an inode is in the way.
  unfoldable pub attach_to_child : Ptr → Ptr → Ptr → M Status
  unfolding negative cnode_find_tag cnode_add_tag cnode_rm_tag
  attach_to_child child req_fs tag = do
    old_tag ← cnode_find_tag child req_fs
    if old_tag == null then (do cnode_add_tag child tag; pure success) else do
      t ← tag_at old_tag
      if negative t
          then (do cnode_rm_tag child old_tag; cnode_add_tag child tag; pure success)
          else pure (failure einval)

  -- Puts the new tag into a new cnode below the directory's.
  unfoldable pub attach_to_new : Ptr → List ℕ → Ptr → M Status
  unfolding cnode_new cnode_add_tag cnode_add_child
  attach_to_new parent name tag = do
    child ← cnode_new name
    if child == null
        then pure (failure enospc)
        else do cnode_add_tag child tag; cnode_add_child parent child; pure success

  -- The part under the locks: finds or makes the cnode for the new tag.
  unfoldable pub attach : Ptr → List ℕ → Ptr → Ptr → M Status
  attach parent name req_fs tag = do
    child ← cnode_find_child parent name
    if child == null then attach_to_new parent name tag else attach_to_child child req_fs tag

  -- The part after the locks: the dentry takes the inode and is pinned, and the counters follow.
  unfoldable pub publish : ℕ → Ptr → Ptr → Ptr → M (Unit {0})
  unfolding d_instantiate local_inc_ref
  publish fuel dir dentry tag = do
    t ← tag_at tag
    d_instantiate dentry t.t_inode
    set_dentry dentry (λ d. record d { d_count = 0x7fff_ffff })
    touch_dir dir
    local_inc_ref fuel dir dentry

  unfoldable pub cinq_mkinode : ℕ → Ptr → Ptr → ℕ → M Status
  cinq_mkinode fuel dir dentry mode = do
    parent ← i_cnode dir
    d ← dentry_at dentry
    if ltb max_name_len d.d_name.len then pure (failure enametoolong) else do
      inode ← cinq_get_inode dir mode
      if inode == null then pure (failure enospc) else do
        tag ← tag_new d.d_fsdata inode (visibility mode)
        if tag == null then (do iput inode; pure (failure enospc)) else do
          r ← attach parent d.d_name.name d.d_fsdata tag
          elim r [
            | failure e ↦ pure (failure e)
            | success ↦ do publish fuel dir dentry tag; pure success
          ]

  -- The file system that makes the request: that of the path in `nameidata`, or of the parent.
  unfoldable pub take_request : Ptr → Option Ptr → M Ptr
  take_request dentry nameidata = do
    d ← dentry_at dentry
    let from : Ptr = elim nameidata [ none ↦ d.d_parent | some path_dentry ↦ path_dentry ]
    p ← dentry_at from
    set_dentry dentry (λ e. record e { d_fsdata = p.d_fsdata })
    pure p.d_fsdata

  unfoldable pub cinq_create : ℕ → Ptr → Ptr → ℕ → Option Ptr → M Status
  cinq_create fuel dir dentry mode nameidata = do
    fs ← take_request dentry nameidata
    if fs == null then pure (failure einval) else cinq_mkinode fuel dir dentry (bit_or mode s_ifreg)

  unfoldable pub cinq_mknod : ℕ → Ptr → Ptr → ℕ → M Status
  cinq_mknod fuel dir dentry mode = do
    fs ← take_request dentry none
    if fs == null then pure (failure einval) else cinq_mkinode fuel dir dentry mode

  unfoldable pub cinq_symlink : ℕ → Ptr → Ptr → List ℕ → M Status
  cinq_symlink fuel dir dentry symname = do
    fs ← take_request dentry none
    if fs == null then pure (failure einval) else do
      r ← cinq_mkinode fuel dir dentry (bit_or s_iflnk s_irwxugo)
      elim r [
        | failure e ↦ pure (failure e)
        | success ↦ do
          d ← dentry_at dentry
          tag ← i_tag d.d_inode
          copy ← malloc
          if copy == null
              then pure (failure enospc)
              else do set_tag tag (λ t. record t { t_symname = some symname }); pure success
      ]
