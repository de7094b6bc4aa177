-- ===== src/Super.antt =====
-- super.c: cinq_fill_super_, with d_alloc_root of vfs.h. Of the super block only the root is kept,
-- which is the result; the sizes, the magic number and the operation tables in it are not read.
pub mod Root
pub mod Mount
use cinquain_meta.Common.{ℕ, Option, none, some, [], ◌∷◌, ◌==◌, if◌then◌else◌}
use cinquain_meta.Containers.{Ptr, null, Library}
use cinquain_meta.Memory.{Qstr, meta_fs}
use cinquain_meta.Memory.Actions.{M, pure, ◌>>=◌, ◌>>◌, inode_at, set_dentry}
use cinquain_meta.Dcache.{d_alloc, d_instantiate}
use cinquain_meta.Tag.{i_cnode}
use cinquain_meta.Cnode.{cnode_evict_all}
use cinquain_meta.Refs.{cnode_make_tree}

abbrev root_name : Qstr
root_name = record { hash = 0; len = 1; name = 0x2f ∷ [] }

module _ ⦃u : Library⦄ where
  unfoldable pub d_alloc_root : Ptr → M Ptr
  unfolding d_alloc d_instantiate
  d_alloc_root root_inode = if root_inode == null then pure null else do
    res ← d_alloc null root_name
    if res == null then pure null else do
      i ← inode_at root_inode
      set_dentry res (λ d. record d { d_sb = i.i_sb })
      set_dentry res (λ d. record d { d_parent = res })
      d_instantiate res root_inode
      pure res

  -- `some root` for 0, with sb->s_root; `none` for -ENOMEM
  unfoldable pub fill_super : ℕ → Ptr → M (Option Ptr)
  unfolding i_cnode cnode_evict_all
  fill_super fuel sb = do
    inode ← cnode_make_tree sb
    if inode == null then pure none else do
      root ← d_alloc_root inode
      if root == null
          then (do cnode ← i_cnode inode; cnode_evict_all fuel cnode; pure none)
          else (do set_dentry root (λ d. record d { d_fsdata = meta_fs }); pure (some root))
