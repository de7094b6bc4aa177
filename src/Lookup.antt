-- ===== src/Lookup.antt =====
-- cinq_lookup of cnode.c.
use cinquain_meta.Common.{ℕ, Option, none, some, List, ◌==◌, leb, if◌then◌else◌}
use cinquain_meta.Containers.{Ptr, null, Library}
use cinquain_meta.Errno.{Errno, enametoolong}
use cinquain_meta.Memory.Actions.{M, pure, ◌>>=◌, ◌>>◌, tag_at, dentry_at, set_dentry, fsnode_at}
use cinquain_meta.Dcache.{d_splice_alias}
use cinquain_meta.Fsnode.{max_name_len, cfs_find}
use cinquain_meta.Tag.{i_cnode, i_fs, inode_meta_root, negative, cnode_find_tag}
use cinquain_meta.Cnode.{cnode_find_child, cnode_lookup_inode}

-- A `struct dentry *`: an address, or an error number from ERR_PTR.
pub data DentryPtr : Type 0 where
  address : Ptr → DentryPtr
  err_ptr : Errno → DentryPtr

module _ ⦃u : Library⦄ where
  -- cinq_lookup_: the inode of a name below a directory, as the directory's file system sees it
  unfoldable pub lookup_in : ℕ → Ptr → List ℕ → M Ptr
  unfolding i_cnode i_fs cnode_find_child cnode_lookup_inode
  lookup_in fuel dir name = do
    parent ← i_cnode dir
    child ← cnode_find_child parent name
    if child == null
        then pure null
        else do fs ← i_fs dir; if fs == null then pure null else cnode_lookup_inode fuel child fs

  -- the last step, for the inode that was found
  abbrev pub splice : Ptr → Ptr → M DentryPtr
  splice inode dentry =
      if inode == null
      then pure (address null)
      else do r ← d_splice_alias inode dentry; pure (address r)

  -- in the root of all file systems a name is that of a file system
  unfoldable pub lookup_meta : Ptr → M DentryPtr
  unfolding cfs_find d_splice_alias
  lookup_meta dentry = do
    d ← dentry_at dentry
    fs ← cfs_find d.d_name.name
    if fs == null then pure (address null) else do
      f ← fsnode_at fs
      root ← dentry_at f.fs_root
      set_dentry dentry (λ e. record e { d_fsdata = fs })
      splice root.d_inode dentry

  -- The view of the file system that makes the request, where it has a tag on the directory.
  unfoldable pub lookup_plain : ℕ → Ptr → Ptr → Option Ptr → M DentryPtr
  unfolding i_cnode cnode_find_tag negative lookup_in d_splice_alias
  lookup_plain fuel dir dentry nameidata = do
    cnode ← i_cnode dir
    d ← dentry_at dentry
    let from : Ptr = elim nameidata [ none ↦ d.d_parent | some path_dentry ↦ path_dentry ]
    p ← dentry_at from
    set_dentry dentry (λ e. record e { d_fsdata = p.d_fsdata })
    tag ← cnode_find_tag cnode p.d_fsdata
    if tag == null then (do inode ← lookup_in fuel dir d.d_name.name; splice inode dentry) else (do
      t ← tag_at tag
      if negative t
          then pure (address null)
          else do inode ← lookup_in fuel t.t_inode d.d_name.name; splice inode dentry)

  unfoldable pub cinq_lookup : ℕ → Ptr → Ptr → Option Ptr → M DentryPtr
  unfolding inode_meta_root lookup_meta lookup_plain
  cinq_lookup fuel dir dentry nameidata = do
    d ← dentry_at dentry
    if leb max_name_len d.d_name.len then pure (err_ptr enametoolong) else do
      meta ← inode_meta_root dir
      if meta then lookup_meta dentry else lookup_plain fuel dir dentry nameidata
