-- ===== src/Dcache.antt =====
-- stub.c: directory entries, their inodes and their reference counts.
--
-- A `d_child` list is the parent's field d_subdirs and a `d_alias` list the inode's field i_dentry,
-- newest first, as list_add puts them. The trylocks of dentry_kill_ succeed, as they do in the end
-- for a caller that runs alone. `fuel` bounds the rounds of dput and the depth of d_genocide.
use cinquain_meta.Common.{ℕ, zero, suc, none, some, [], ◌==◌, ltb, if◌then◌else◌, inc32, dec32}
use cinquain_meta.Containers.{Ptr, null, Library}
use cinquain_meta.Memory.{Qstr}
use cinquain_meta.Memory.Actions.{
  M, diverges, pure, skip, ◌>>=◌, ◌>>◌, set_inode, dentry_at, store_dentry, set_dentry, malloc,
  for_each,
}
use cinquain_meta.Vfs.{iput}

unfoldable pub dget : Ptr → M Ptr
dget dentry =
    if dentry == null
    then pure null
    else do set_dentry dentry (λ d. record d { d_count = inc32 d.d_count }); pure dentry

module _ ⦃u : Library⦄ where
  unfoldable pub d_instantiate : Ptr → Ptr → M (Unit {0})
  d_instantiate dentry inode = if inode == null then skip else do
    set_inode inode (λ i. record i { i_dentry = u.list_add dentry i.i_dentry })
    set_dentry dentry (λ d. record d { d_inode = inode })

  -- d_splice_alias returns NULL.
  unfoldable pub d_splice_alias : Ptr → Ptr → M Ptr
  unfolding d_instantiate
  d_splice_alias inode dentry = do d_instantiate dentry inode; pure null

  -- d_alloc, whose second allocation is that of the name.
  unfoldable pub d_alloc : Ptr → Qstr → M Ptr
  d_alloc parent name = do
    dentry ← malloc
    if dentry == null then pure null else do
      dname ← malloc
      if dname == null then pure null else do
        store_dentry dentry (
            some (record {
              d_parent = null;
              d_name = name;
              d_inode = null;
              d_count = 1;
              d_sb = null;
              d_fsdata = null;
              d_subdirs = [];
            }))
        if parent == null then pure dentry else do
          p ← dentry_at parent
          set_dentry parent (λ d. record d {
            d_count = inc32 d.d_count;
            d_subdirs = u.list_add dentry d.d_subdirs;
          })
          set_dentry dentry (λ d. record d { d_parent = parent; d_sb = p.d_sb })
          pure dentry

  dentry_iput : Ptr → M (Unit {0})
  unfolding iput
  dentry_iput dentry = do
    d ← dentry_at dentry
    if d.d_inode == null then skip else do
      set_dentry dentry (λ e. record e { d_inode = null })
      set_inode d.d_inode (λ i. record i { i_dentry = u.list_del dentry i.i_dentry })
      iput d.d_inode

  -- dentry_kill_ and d_kill_: frees the dentry, and returns its parent, NULL at a root.
  dentry_kill : Ptr → M Ptr
  unfolding dentry_iput
  dentry_kill dentry = do
    d ← dentry_at dentry
    let parent = if d.d_parent == dentry then null else d.d_parent
    (if d.d_parent == null
        then skip
        else set_dentry d.d_parent (λ p. record p { d_subdirs = u.list_del dentry p.d_subdirs }))
    dentry_iput dentry
    store_dentry dentry none
    pure parent

  unfoldable pub dput : ℕ → Ptr → M (Unit {0})
  unfolding dentry_kill
  dput zero dentry = λ _. diverges
  dput (suc fuel) dentry = if dentry == null then skip else do
    d ← dentry_at dentry
    if ltb 1 d.d_count
        then set_dentry dentry (λ e. record e { d_count = dec32 e.d_count })
        else do parent ← dentry_kill dentry; dput fuel parent

  unfoldable pub d_genocide : ℕ → Ptr → M (Unit {0})
  unfolding dput for_each
  d_genocide zero root = λ _. diverges
  d_genocide (suc fuel) root =
      if root == null
      then skip
      else do d ← dentry_at root; for_each (d_genocide fuel) d.d_subdirs; dput fuel root
