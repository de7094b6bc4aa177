-- ===== src/Tests/Directories.antt =====
-- The removal of a directory, at a memory in which `d` is `b`'s own.
use cinquain_meta.Common.{dec32, ◌≡◌, refl, some, [], ◌∷◌, arith, ◌==◌, if◌then◌else◌, str_eq}
use cinquain_meta.Containers.{null, by_ptr, assoc}
use cinquain_meta.Containers.Laws.{plain_lists}
use cinquain_meta.Errno.{success}
use cinquain_meta.Memory.{State, Cnode, Tag, meta_fs}
use cinquain_meta.Memory.Actions.{ret}
use cinquain_meta.Cnode.{cnode_lookup_inode}
use cinquain_meta.Cnode.Nearest.{tag_of}
use cinquain_meta.Remove.{cinq_rmdir}
use cinquain_meta.Remove.Unlink.{Entry}
use cinquain_meta.Remove.Detach.{OwnDir}
use cinquain_meta.Remove.Dir.{rmdir_own}
use cinquain_meta.Remove.Empty.{TagsOwned}
use cinquain_meta.Tests.{
  dir_cnode, dir_inode, dir_tag, memory, node_b, sub_cnode, sub_dentry, sub_inode, sub_tag,
}
use cinquain_meta.Tests.Trees.{way_b}

abbrev empty_tag : Tag
empty_tag = record sub_tag { t_fs = 11; t_nchild = 0 }

abbrev empty_cnode : Cnode
empty_cnode = record sub_cnode { ci_tags = (by_ptr 11, 34) ∷ [] }

abbrev with_empty : State
with_empty = record memory {
  tags = λ p. if p == 34 then some empty_tag else memory.tags p;
  cnodes = λ p. if p == 22 then some empty_cnode else memory.cnodes p;
}

empty_entry : Entry with_empty 41 54
unfolding assoc str_eq
empty_entry = record {
  dir_inode = dir_inode;
  dir_tag = dir_tag;
  dir_cnode = dir_cnode;
  entry = sub_dentry;
  inode = sub_inode;
  child = 22;
  cnode = empty_cnode;
  at_dir = refl;
  at_tag = refl;
  at_dir_cnode = refl;
  at_dentry = refl;
  inode_ne = omega arith;
  at_inode = refl;
  by_name = refl;
  child_ne = omega arith;
  at_child = refl;
  has_request = omega arith;
}

empty-OwnDir : OwnDir with_empty 41 54 empty_entry
unfolding empty_entry assoc
empty-OwnDir = record {
  tag = empty_tag;
  own = omega arith;
  at_own = refl;
  of_fs = refl;
  same = refl;
  by_inode = refl;
  dir_fs = refl;
  dir_same = refl;
  apart = omega arith;
  is_dir = refl;
  not_dir = omega arith;
}

empty-TagsOwned : TagsOwned with_empty (tag_of with_empty 22 empty_cnode refl)
unfolding assoc
empty-TagsOwned = (refl, λ fs ne. (empty_tag, ground arith, ground arith))

rmdir_own_example :
    (s' : State) × (cinq_rmdir 5 41 54 with_empty ≡ ret success s')
    × (cnode_lookup_inode 1 22 11 s' ≡ ret null s')
    × (s'.tags 31 ≡ some (record dir_tag { t_nchild = dec32 0 }))
    × (s'.inodes 44 ≡ some (record sub_inode { i_nlink = dec32 2; i_count = dec32 2; i_ctime = 5 }))
    × (s'.inodes 41
        ≡ some (record dir_inode { i_nlink = dec32 (dec32 2); i_mtime = 5; i_ctime = 5 }))
unfolding empty_entry meta_fs assoc
rmdir_own_example =
    rmdir_own with_empty 41 54 empty_entry empty-OwnDir 5 0 node_b (11 ∷ 10 ∷ []) way_b
      (omega arith) empty-TagsOwned refl refl (omega arith)
