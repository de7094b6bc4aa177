-- ===== src/Tests/Names.antt =====
-- Names in a directory that two file systems share, at the concrete memory.
use cinquain_meta.Common.{◌≡◌, inl, refl, some, [], ◌∷◌, arith, str_eq}
use cinquain_meta.Containers.{Ptr, IsTable, assoc}
use cinquain_meta.Containers.Laws.{plain_lists}
use cinquain_meta.Errno.{success, failure, einval}
use cinquain_meta.Memory.{State, Inode, Tag, meta_fs}
use cinquain_meta.Memory.Actions.{ret}
use cinquain_meta.Cnode.{cnode_lookup_inode}
use cinquain_meta.Cnode.Nearest.{TagsLive, lookup-nearest}
use cinquain_meta.Create.{cinq_mkinode}
use cinquain_meta.Create.Request.{Request, IsFresh, Named}
use cinquain_meta.Create.Made.{mkinode-Named}
use cinquain_meta.Create.Found.{mkinode-lookup}
use cinquain_meta.Create.Over.{mkinode-over}
use cinquain_meta.Create.Exists.{mkinode-exists}
use cinquain_meta.Lookup.{lookup_in}
use cinquain_meta.Tests.{
  dir_cnode, dir_inode, dir_tag, file_cnode, file_tag, memory, new_dentry, node_b, own_dentry,
  over_dentry,
}
use cinquain_meta.Tests.Trees.{way_b}

pub memory-IsFresh : IsFresh memory
memory-IsFresh = record {
  brk_pos = omega arith;
  no_inode = λ p h. ground arith;
  no_tag = λ p h. ground arith;
  no_cnode = λ p h. ground arith;
}

abbrev request : Request memory 41 50
request = record {
  inode = dir_inode;
  tag = dir_tag;
  cnode = dir_cnode;
  entry = new_dentry;
  at_dir = refl;
  at_tag = refl;
  at_cnode = refl;
  at_dentry = refl;
}

the_tree : (x : Inode) × (memory.inodes request.tag.t_inode ≡ some x)
the_tree = (dir_inode, refl)

names-IsTable : IsTable request.cnode.ci_children
unfolding assoc str_eq
names-IsTable = (omega arith, refl, (omega arith, refl, tt))

mkinode-Named_example :
    (s' : State) × (cinq_mkinode 5 41 50 0x81ff memory ≡ ret success s')
    × Named s' 20 (0x67 ∷ []) 11 100
    × (s'.dentries 50 ≡ some (record new_dentry { d_inode = 100; d_count = 0x7fff_ffff }))
unfolding assoc str_eq
mkinode-Named_example =
    mkinode-Named memory 5 41 50 0x81ff request memory-IsFresh (omega arith) (omega arith)
      (omega arith) refl the_tree names-IsTable refl

mkinode-lookup_example :
    (s' : State) × (cinq_mkinode 5 41 50 0x81ff memory ≡ ret success s')
    × (lookup_in 3 41 (0x67 ∷ []) s' ≡ ret 100 s')
unfolding meta_fs assoc str_eq
mkinode-lookup_example =
    mkinode-lookup memory 5 2 41 50 0x81ff request node_b memory-IsFresh
      (inl (refl, names-IsTable, omega arith, omega arith)) (omega arith) refl the_tree refl
      (omega arith) (omega arith)

file_tags_live : TagsLive memory 21 file_cnode refl
unfolding assoc
file_tags_live fs ne = (file_tag, ground arith)

lookup-nearest_example : cnode_lookup_inode 5 21 11 memory ≡ ret 43 memory
unfolding assoc
lookup-nearest_example =
    lookup-nearest memory 21 file_cnode refl 5 11 (11 ∷ 10 ∷ []) way_b (omega arith) file_tags_live

mkinode-exists_example :
    (s' : State) × (i : Inode) × (leaked : Tag) × (cinq_mkinode 5 41 53 0x81ff memory
      ≡ ret (failure einval) s')
    × (s'.inodes 100 ≡ some i)
    × (s'.tags 101 ≡ some leaked)
    × (s'.brk ≡ 102)
    × ((q : Ptr) → s'.cnodes q ≡ memory.cnodes q)
    × ((q : Ptr) → s'.dentries q ≡ memory.dentries q)
unfolding assoc str_eq
mkinode-exists_example =
    mkinode-exists memory 5 41 53 0x81ff
      (record {
        inode = dir_inode;
        tag = dir_tag;
        cnode = dir_cnode;
        entry = own_dentry;
        at_dir = refl;
        at_tag = refl;
        at_cnode = refl;
        at_dentry = refl;
      })
      21 file_cnode file_tag memory-IsFresh (omega arith) (omega arith) refl (omega arith) refl refl
      (omega arith) (omega arith)

mkinode-over_example :
    (s' : State) × (cinq_mkinode 5 41 55 0x81ff memory ≡ ret success s')
    × Named s' 20 (0x66 ∷ []) 11 100
unfolding assoc str_eq
mkinode-over_example =
    mkinode-over memory 5 41 55 0x81ff
      (record {
        inode = dir_inode;
        tag = dir_tag;
        cnode = dir_cnode;
        entry = over_dentry;
        at_dir = refl;
        at_tag = refl;
        at_cnode = refl;
        at_dentry = refl;
      })
      21 file_cnode memory-IsFresh (omega arith) (omega arith) refl (dir_inode, refl) refl
      (omega arith) (omega arith) refl refl refl (omega arith, refl, tt) (inl refl)
