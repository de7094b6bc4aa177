-- ===== src/Tests/Reaches.antt =====
-- A memory that one call of fsnode_new leads to.
use cinquain_meta.Common.{
  ◌≡◌, refl, inl, none, some, List, [], ◌∷◌, ◌==◌, if◌then◌else◌, arith, str_eq,
}
use cinquain_meta.Containers.{Ptr, null, by_str, assoc}
use cinquain_meta.Containers.Laws.{plain_lists}
use cinquain_meta.Memory.{State, Fsnode, meta_fs}
use cinquain_meta.Memory.Actions.{ret}
use cinquain_meta.Fsnode.{fsnode_ancestor, fsnode_new}
use cinquain_meta.Fsnode.Chain.{parent_of, Chain, elem, ancestors}
use cinquain_meta.Fsnode.Tree.{IsTree}
use cinquain_meta.Fsnode.Reached.{begun, made, Reached-fsnode_ancestor}

abbrev nothing : State
nothing = record {
  fsnodes = λ _. none;
  tags = λ _. none;
  cnodes = λ _. none;
  inodes = λ _. none;
  dentries = λ _. none;
  cfs_table = [];
  brk = 10;
  avail = 8;
  now = 5;
}

abbrev node : Fsnode
node = record {
  fs_id = 10;
  fs_name = 0x61 ∷ [];
  fs_parent = meta_fs;
  fs_root = null;
  fs_children = [];
}

abbrev one_fs : State
one_fs = record nothing {
  fsnodes = λ p. if 10 == p then some node else none;
  cfs_table = (by_str (0x61 ∷ []), 10) ∷ [];
  brk = 11;
  avail = 7;
}

Reached-ancestor_example :
    IsTree one_fs
    × (path : List Ptr) × Chain (parent_of one_fs) 10 path
    × ((a : Ptr) → fsnode_ancestor 2 a 10 one_fs ≡ ret (elem a (ancestors path)) one_fs)
unfolding meta_fs fsnode_new assoc str_eq
Reached-ancestor_example =
    Reached-fsnode_ancestor 1 one_fs 10 meta_fs
      (made 0 nothing one_fs meta_fs (0x61 ∷ []) 10 (begun nothing (λ p. refl)) refl (omega arith)
        (inl refl) refl)
      refl
