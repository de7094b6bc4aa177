-- ===== src/Refs.antt =====
-- cnode.c: new inodes, and the counters that the directories above an inode keep: t_nchild of the
-- tags and i_nlink of their inodes.
--
-- `fuel` bounds the rounds of the climb in cnode_tag_ancestors_.
use cinquain_meta.Common.{[], ◌∷◌, ℕ, zero, suc, ◌+◌, Bool, true, ◌==◌, ◌||◌, if◌then◌else◌, inc32}
use cinquain_meta.Containers.{Ptr, null, Library}
use cinquain_meta.Memory.{Inode, dir_iops, file_iops, symlink_iops, dir_fops, file_fops, meta_fs}
use cinquain_meta.Memory.Actions.{
  M, diverges, pure, skip, ◌>>=◌, ◌>>◌, tag_at, cnode_at, set_cnode, inode_at, set_inode, dentry_at,
  current_time,
}
use cinquain_meta.Vfs.{
  s_isdir, s_isreg, s_islnk, as_dir_mode, s_ifdir, s_irwxugo, inc_nlink, drop_nlink, new_inode,
  init_owner,
}
use cinquain_meta.Tag.{
  cinq_visible, cinq_invisible, i_tag, i_cnode, tag_new, inc_nchild, drop_nchild, cnode_find_tag,
  cnode_add_tag,
}
use cinquain_meta.Cnode.{cnode_new}

-- the operations that the type in the mode selects; init_special_inode is not modelled
abbrev pub with_ops : ℕ → Inode → Inode
with_ops mode i =
    if s_isreg mode
    then record i { i_op = file_iops; i_fop = file_fops }
    else if s_isdir mode
    then record i { i_op = dir_iops; i_fop = dir_fops; i_nlink = inc32 i.i_nlink }
    else if s_islnk mode
    then record i { i_op = symlink_iops }
    else i

-- The last statement, which sets i_count, is outside the test of `inode`: a fault for NULL, that
-- new_inode has met already.
unfoldable pub cinq_get_inode : Ptr → ℕ → M Ptr
unfolding new_inode
cinq_get_inode dir mode = do
  d ← inode_at dir
  inode ← new_inode d.i_sb
  now ← current_time
  set_inode inode (λ i.
      with_ops mode (record (init_owner d mode i) { i_atime = now; i_mtime = now; i_ctime = now }))
  set_inode inode (λ i. record i { i_count = 1_000_000_000 })
  pure inode

abbrev pub link_parent : Bool → Ptr → M (Unit {0})
link_parent to_ln tag = if to_ln then (do t ← tag_at tag; inc_nlink t.t_inode) else skip

module _ ⦃u : Library⦄ where
  -- the loop of cnode_tag_ancestors_, from ci_child
  unfoldable pub tag_ancestors_loop : ℕ → Ptr → Ptr → Bool → Ptr → M (Unit {0})
  unfolding cinq_get_inode tag_new cnode_add_tag cnode_find_tag inc_nchild inc_nlink
  tag_ancestors_loop zero child fs to_ln ci_child = λ _. diverges
  tag_ancestors_loop (suc fuel) child fs to_ln ci_child = do
    c ← cnode_at ci_child
    if (c.ci_parent == ci_child) || (c.ci_parent == null) then skip else do
      tag ← cnode_find_tag c.ci_parent fs
      if tag == null
          then (do
            i ← inode_at child
            parent ← cinq_get_inode child (as_dir_mode i.i_mode)
            new_tag ← tag_new fs parent cinq_visible
            cnode_add_tag c.ci_parent new_tag
            inc_nchild new_tag
            link_parent to_ln new_tag
            tag_ancestors_loop fuel child fs true c.ci_parent)
          else (do inc_nchild tag; link_parent to_ln tag)

  unfoldable pub cnode_tag_ancestors : ℕ → Ptr → M (Unit {0})
  unfolding tag_ancestors_loop i_cnode
  cnode_tag_ancestors fuel dentry = do
    d ← dentry_at dentry
    i ← inode_at d.d_inode
    ci_child ← i_cnode d.d_inode
    tag_ancestors_loop fuel d.d_inode d.d_fsdata (s_isdir i.i_mode) ci_child

  unfoldable pub local_inc_ref : ℕ → Ptr → Ptr → M (Unit {0})
  unfolding cnode_tag_ancestors i_tag inc_nchild inc_nlink
  local_inc_ref fuel dir dentry = do
    dir_tag ← i_tag dir
    d ← dentry_at dentry
    t ← tag_at dir_tag
    if t.t_fs == d.d_fsdata
        then (do
          inc_nchild dir_tag
          i ← inode_at d.d_inode
          if s_isdir i.i_mode then (do v ← tag_at dir_tag; inc_nlink v.t_inode) else skip)
        else cnode_tag_ancestors fuel dentry

  unfoldable pub local_drop_ref : Ptr → Ptr → M (Unit {0})
  unfolding i_tag i_cnode cnode_find_tag drop_nchild drop_nlink
  local_drop_ref dir dentry = do
    dir_tag ← i_tag dir
    d ← dentry_at dentry
    t ← tag_at dir_tag
    tag ←
        (if t.t_fs == d.d_fsdata
          then pure dir_tag
          else do cnode ← i_cnode dir; cnode_find_tag cnode d.d_fsdata)
    drop_nchild tag
    i ← inode_at d.d_inode
    if s_isdir i.i_mode then (do v ← tag_at tag; drop_nlink v.t_inode) else skip

  -- The root of the directories, which belongs to no file system; S_IFDIR | S_IRWXUGO | S_ISVTX.
  unfoldable pub cnode_make_tree : Ptr → M Ptr
  unfolding cnode_new new_inode tag_new cnode_add_tag
  cnode_make_tree sb = do
    croot ← cnode_new (0x2f ∷ [])
    set_cnode croot (λ c. record c { ci_parent = croot })
    iroot ← new_inode sb
    now ← current_time
    set_inode iroot (λ i. record i {
      i_mode = s_ifdir + 0x200 + s_irwxugo;
      i_uid = 0;
      i_gid = 0;
      i_atime = now;
      i_mtime = now;
      i_ctime = now;
      i_nlink = inc32 i.i_nlink;
      i_op = dir_iops;
      i_fop = dir_fops;
    })
    tag ← tag_new meta_fs iroot cinq_invisible
    cnode_add_tag croot tag
    pure iroot
