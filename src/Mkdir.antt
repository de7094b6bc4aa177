-- ===== src/Mkdir.antt =====
-- cinq_mkdir of cnode.c. In the root of all file systems it makes no directory: "parent.child"
-- makes the file system `child`, or moves it, below the file system `parent`.
use cinquain_meta.Common.{
  ℕ, Option, none, some, List, [], ◌∷◌, ◌==◌, ◌&&◌, not, if◌then◌else◌, length, str_eq,
}
use Prim.Native.Nat.{bit_or}
use cinquain_meta.Containers.{Ptr, null, Library}
use cinquain_meta.Errno.{Status, success, failure, einval, enospc}
use cinquain_meta.Memory.{meta_fs}
use cinquain_meta.Memory.Actions.{
  M, fault, pure, skip, ◌>>=◌, ◌>>◌, dentry_at, set_dentry, fsnode_at, set_fsnode, malloc,
}
use cinquain_meta.Vfs.{s_ifdir}
use cinquain_meta.Dcache.{d_instantiate, dget}
use cinquain_meta.Fsnode.{cfs_find, fsnode_new, fsnode_move}
use cinquain_meta.Tag.{i_cnode, inode_meta_root, tag_new, cnode_add_tag}
use cinquain_meta.Refs.{cinq_get_inode}
use cinquain_meta.Create.{visibility, touch_dir, take_request, cinq_mkinode}

-- memchr(namestr, FS_DELIM, ...) and the two strings on its sides
unfoldable pub split_name : List ℕ → Option (List ℕ × List ℕ)
split_name [] = none
split_name (c ∷ s) =
    let rest = split_name s in
    if c == 0x2e
    then some ([], s)
    else elim rest [ none ↦ none | some (before, after) ↦ some (c ∷ before, after) ]

-- "META_FS"
abbrev pub meta_fs_name : List ℕ
meta_fs_name = 0x4d ∷ 0x45 ∷ 0x54 ∷ 0x41 ∷ 0x5f ∷ 0x46 ∷ 0x53 ∷ []

module _ ⦃u : Library⦄ where
  -- The dentry's name becomes a copy of the child's; malloc is not tested for NULL.
  rename_dentry : Ptr → List ℕ → M (Unit {0})
  rename_dentry dentry name = do
    copy ← malloc
    if copy == null
        then (λ _. fault)
        else set_dentry dentry
            (λ d. record d { d_name = record { hash = 0; len = length name; name = name } })

  -- "makes new file system node"
  unfoldable pub make_fs : Ptr → Ptr → ℕ → Ptr → List ℕ → Ptr → M Status
  unfolding cinq_get_inode fsnode_new tag_new cnode_add_tag d_instantiate dget
  make_fs dir dentry mode parent_fs child_name dir_cnode = do
    iroot ← cinq_get_inode dir mode
    if iroot == null then pure (failure enospc) else do
      child_fs ← fsnode_new parent_fs child_name
      tag ← tag_new child_fs iroot (visibility mode)
      if tag == null then pure (failure enospc) else do
        cnode_add_tag dir_cnode tag
        d_instantiate dentry iroot
        dget dentry
        set_fsnode child_fs (λ f. record f { fs_root = dentry })
        set_dentry dentry (λ d. record d { d_fsdata = child_fs })
        touch_dir dir
        pure success

  -- "make inheritance"
  unfoldable pub inherit_fs : ℕ → Ptr → Ptr → M Status
  unfolding fsnode_move
  inherit_fs fuel child_fs parent_fs = do
    c ← fsnode_at child_fs
    (if c.fs_parent == parent_fs then skip else fsnode_move fuel child_fs parent_fs)
    pure success

  unfoldable pub mkdir_meta : ℕ → Ptr → Ptr → ℕ → M Status
  unfolding split_name rename_dentry cfs_find i_cnode make_fs inherit_fs
  mkdir_meta fuel dir dentry mode = do
    d ← dentry_at dentry
    elim (split_name d.d_name.name) [
      | none ↦ pure (failure einval)
      | some (parent_name, child_name) ↦ do
        rename_dentry dentry child_name
        parent_fs ← cfs_find parent_name
        child_fs ← cfs_find child_name
        if (parent_fs == null) && not (str_eq parent_name meta_fs_name)
            then pure (failure einval)
            else do
              let parent = if parent_fs == null then meta_fs else parent_fs
              dir_cnode ← i_cnode dir
              if child_fs == null
                  then make_fs dir dentry mode parent child_name dir_cnode
                  else inherit_fs fuel child_fs parent
    ]

  unfoldable pub cinq_mkdir : ℕ → Ptr → Ptr → ℕ → M Status
  unfolding inode_meta_root mkdir_meta take_request cinq_mkinode
  cinq_mkdir fuel dir dentry mode = do
    meta ← inode_meta_root dir
    if meta then mkdir_meta fuel dir dentry (bit_or mode s_ifdir) else do
      fs ← take_request dentry none
      if fs == null
          then pure (failure einval)
          else cinq_mkinode fuel dir dentry (bit_or mode s_ifdir)
