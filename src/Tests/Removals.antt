-- ===== src/Tests/Removals.antt =====
-- Removals in a directory that two file systems share, at the concrete memory.
use cinquain_meta.Common.{
  dec32, ◌≡◌, ◌≢◌, refl, false, some, [], ◌∷◌, arith, ◌==◌, if◌then◌else◌, str_eq,
}
use cinquain_meta.Containers.{Ptr, null, by_ptr, assoc}
use cinquain_meta.Containers.Laws.{plain_lists}
use cinquain_meta.Errno.{success, failure, enotempty}
use cinquain_meta.Memory.{State, Cnode, Tag, meta_fs}
use cinquain_meta.Memory.Actions.{ret}
use cinquain_meta.Cnode.{cnode_lookup_inode}
use cinquain_meta.Cnode.Nearest.{tag_of}
use cinquain_meta.Remove.{cinq_unlink, cinq_empty_dir, cinq_rmdir}
use cinquain_meta.Remove.Unlink.{Entry, unlink-inherited}
use cinquain_meta.Remove.Own.{unlink_own}
use cinquain_meta.Remove.Empty.{TagsOwned, empty_dir-no_children, rmdir-not_empty}
use cinquain_meta.Tests.{
  dir_cnode, dir_inode, dir_tag, file_cnode, file_dentry, file_inode, file_tag, memory, node_b,
  sub_cnode, sub_dentry, sub_inode, sub_tag,
}
use cinquain_meta.Tests.Trees.{way_b}

unfoldable pub file_entry : Entry memory 41 51
unfolding assoc str_eq
file_entry = record {
  dir_inode = dir_inode;
  dir_tag = dir_tag;
  dir_cnode = dir_cnode;
  entry = file_dentry;
  inode = file_inode;
  child = 21;
  cnode = file_cnode;
  at_dir = refl;
  at_tag = refl;
  at_dir_cnode = refl;
  at_dentry = refl;
  inode_ne = omega arith;
  at_inode = refl;
  by_name = refl;
  child_ne = omega arith;
  at_child = refl;
  has_request = omega arith;
}

unlink-inherited_example :
    (s' : State) × (after : Cnode) × (cinq_unlink 41 51 memory ≡ ret success s')
    × (cnode_lookup_inode 1 21 11 s' ≡ ret null s')
    × (s'.cnodes 21 ≡ some after)
    × ((fs : Ptr)
        → plain_lists.find (by_ptr fs) after.ci_tags
          ≡ (if 11 == fs then 100 else plain_lists.find (by_ptr fs) file_cnode.ci_tags))
    × (after.ci_children ≡ [])
    × ((q : Ptr) → q ≢ 100 → s'.tags q ≡ memory.tags q)
    × ((q : Ptr) → q ≢ 21 → s'.cnodes q ≡ memory.cnodes q)
    × ((q : Ptr) → s'.fsnodes q ≡ memory.fsnodes q)
unfolding file_entry meta_fs assoc
unlink-inherited_example =
    unlink-inherited memory 0 41 51 file_entry node_b refl (omega arith, refl, tt) refl
      (omega arith) (omega arith) (omega arith)

sub_entry : Entry memory 41 54
unfolding assoc str_eq
sub_entry = record {
  dir_inode = dir_inode;
  dir_tag = dir_tag;
  dir_cnode = dir_cnode;
  entry = sub_dentry;
  inode = sub_inode;
  child = 22;
  cnode = sub_cnode;
  at_dir = refl;
  at_tag = refl;
  at_dir_cnode = refl;
  at_dentry = refl;
  inode_ne = omega arith;
  at_inode = refl;
  by_name = refl;
  child_ne = omega arith;
  at_child = refl;
  has_request = omega arith;
}

sub-TagsOwned : TagsOwned memory (tag_of memory 22 sub_cnode refl)
unfolding assoc
sub-TagsOwned = (refl, λ fs ne. (sub_tag, ground arith, ground arith))

empty_dir-no_children_example : cinq_empty_dir 5 22 11 memory ≡ ret false memory
unfolding assoc
empty_dir-no_children_example =
    empty_dir-no_children memory 22 sub_cnode refl 5 11 (11 ∷ 10 ∷ []) way_b (omega arith)
      sub-TagsOwned

rmdir-not_empty_example : cinq_rmdir 5 41 54 memory ≡ ret (failure enotempty) memory
unfolding sub_entry assoc
rmdir-not_empty_example =
    rmdir-not_empty memory 5 41 54 sub_entry (11 ∷ 10 ∷ []) way_b (omega arith) sub-TagsOwned refl

-- `f` with a tag of `b`'s own
abbrev b_tag : Tag
b_tag = record file_tag { t_fs = 11 }

abbrev b_cnode : Cnode
b_cnode = record file_cnode { ci_tags = (by_ptr 11, 33) ∷ [] }

abbrev b_memory : State
b_memory = record memory {
  tags = λ p. if p == 33 then some b_tag else memory.tags p;
  cnodes = λ p. if p == 21 then some b_cnode else memory.cnodes p;
}

unfoldable b_entry : Entry b_memory 41 51
unfolding assoc str_eq
b_entry = record {
  dir_inode = dir_inode;
  dir_tag = dir_tag;
  dir_cnode = dir_cnode;
  entry = file_dentry;
  inode = file_inode;
  child = 21;
  cnode = b_cnode;
  at_dir = refl;
  at_tag = refl;
  at_dir_cnode = refl;
  at_dentry = refl;
  inode_ne = omega arith;
  at_inode = refl;
  by_name = refl;
  child_ne = omega arith;
  at_child = refl;
  has_request = omega arith;
}

unlink_own_example :
    (s' : State) × (cinq_unlink 41 51 b_memory ≡ ret success s')
    × (cnode_lookup_inode 1 21 11 s' ≡ ret null s')
    × ((q : Ptr) → s'.cnodes q ≡ b_memory.cnodes q)
    × (s'.tags 31 ≡ some (record dir_tag { t_nchild = dec32 0 }))
unfolding b_entry meta_fs assoc
unlink_own_example =
    unlink_own b_memory 41 51 b_entry 33 b_tag refl (omega arith) refl refl refl refl (omega arith)
      refl (omega arith) 0 node_b refl (omega arith)
