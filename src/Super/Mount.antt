-- ===== src/Super/Mount.antt =====
-- super.c: cinq_mount and cinq_kill_sb, with mount_nodev and alloc_super_ of vfs.c.
--
-- The super block is its address, and its root the result of a mount. The cache's and the thread's
-- start and stop are outside the model; cinq_kill_sb waits until the thread has emptied the journal's
-- lists, which is a pass of it here. `fuel` bounds the rounds of each loop.
pub mod Unmount
use cinquain_meta.Common.{ℕ, Option, none, some, [], ◌==◌, if◌then◌else◌}
use cinquain_meta.Containers.{Ptr, null, Library}
use cinquain_meta.Errno.{enomem, Result, ok, err}
use cinquain_meta.Memory.{State, meta_fs}
use cinquain_meta.Memory.Actions.{M, fault, pure, skip, ◌>>=◌, ◌>>◌, dentry_at, malloc}
use cinquain_meta.Dcache.{dget, d_genocide}
use cinquain_meta.Tag.{i_cnode}
use cinquain_meta.Cnode.{cnode_evict_all}
use cinquain_meta.Fsnode.{fsnode_evict_all}
use cinquain_meta.Journal.{Journal, num_way, empty_journal, drain_ways}
use cinquain_meta.Super.{fill_super}

-- file_systems.cfs_table = NULL
abbrev pub cfs_init : M (Unit {0})
cfs_init s = skip (record s { cfs_table = [] })

module _ ⦃u : Library⦄ where
  -- The fields of the new super block are written without a test for NULL.
  unfoldable pub mount_nodev : ℕ → M (Result Ptr)
  unfolding fill_super dget
  mount_nodev fuel = do
    sb ← malloc
    if sb == null then (λ _. fault) else do
      root ← fill_super fuel sb
      elim root [ none ↦ pure (err enomem) | some r ↦ do d ← dget r; pure (ok d) ]

  -- the root, and the journal
  unfoldable pub cinq_mount : ℕ → M (Result Ptr × Journal)
  unfolding mount_nodev
  cinq_mount fuel = do cfs_init; root ← mount_nodev fuel; pure (root, empty_journal)

  unfoldable pub cinq_kill_sb : ℕ → Journal → Ptr → M (Unit {0})
  unfolding drain_ways fsnode_evict_all d_genocide i_cnode cnode_evict_all
  cinq_kill_sb fuel j root = if root == null then skip else elim (drain_ways fuel j 0 num_way) [
    | none ↦ (λ _. fault)
    | some drained ↦ do
      fsnode_evict_all fuel meta_fs
      d_genocide fuel root
      d ← dentry_at root
      cnode ← i_cnode d.d_inode
      cnode_evict_all fuel cnode
  ]
