-- ===== src/Tests/Mounts.antt =====
-- The root of the directories, at the concrete memory.
use cinquain_meta.Common.{◌≡◌, true, none, some, arith}
use cinquain_meta.Containers.{Ptr}
use cinquain_meta.Containers.Laws.{plain_lists}
use cinquain_meta.Memory.{State, Cnode, Dentry, meta_fs}
use cinquain_meta.Memory.Actions.{ret}
use cinquain_meta.Tag.{inode_meta_root, i_cnode}
use cinquain_meta.Super.{fill_super}
use cinquain_meta.Errno.{ok}
use cinquain_meta.Journal.{empty_journal}
use cinquain_meta.Super.Root.{Rooted, fill_super-inode_meta_root}
use cinquain_meta.Super.Mount.{cinq_mount, cinq_kill_sb}
use cinquain_meta.Super.Mount.Unmount.{cinq_mount-cinq_kill_sb}
use cinquain_meta.Start.{Answers, init_cinq_fs, exit_cinq_fs}
use cinquain_meta.Start.Left.{nothing, only_caches, everything, init_cinq_fs-exit_cinq_fs}
use cinquain_meta.Tests.{memory}

fill_super_example :
    (s' : State) × (root : Ptr) × (d : Dentry) × (c : Ptr) × (cn : Cnode) × (fill_super 3 90 memory
      ≡ ret (some root) s')
    × (s'.dentries root ≡ some d)
    × (d.d_parent ≡ root)
    × (d.d_fsdata ≡ meta_fs)
    × (inode_meta_root d.d_inode s' ≡ ret true s')
    × (i_cnode d.d_inode s' ≡ ret c s')
    × (s'.cnodes c ≡ some cn)
    × (cn.ci_parent ≡ c)
fill_super_example = fill_super-inode_meta_root memory 3 90 (omega arith) (omega arith)

mount-kill_sb_example :
    (s1 s2 : State) × (root : Ptr) × (g : Rooted s1 root 2) × (cinq_mount 2 memory
      ≡ ret (ok root, empty_journal) s1)
    × (cinq_kill_sb 2 empty_journal root s1 ≡ ret tt s2)
    × (s2.cnodes g.tag.t_host ≡ none)
    × (s2.tags g.inode.i_ino ≡ none)
    × (s2.inodes g.entry.d_inode ≡ none)
    × (s2.dentries root ≡ some (record g.entry { d_count = 1 }))
mount-kill_sb_example = cinq_mount-cinq_kill_sb memory 0 (omega arith) (omega arith)

-- another file system of the same name is registered
abbrev taken_name : Answers
taken_name = record {
  bdi_error = 0;
  cnode_cache = true;
  tag_cache = true;
  inode_cache = true;
  fsnode_cache = true;
  jentry_cache = true;
  hash_cache = true;
  register_error = 16;
}

init-exit_example :
    (init_cinq_fs taken_name nothing ≡ some (16, only_caches))
    × (exit_cinq_fs everything ≡ some (record nothing { tag_cachep = true; inode_cachep = true }))
init-exit_example = init_cinq_fs-exit_cinq_fs taken_name
