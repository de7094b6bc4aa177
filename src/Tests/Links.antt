-- ===== src/Tests/Links.antt =====
-- Links, at the concrete memory.
use cinquain_meta.Common.{
  ℕ, ◌<◌, ◌≤◌, ◌≡◌, ◌≢◌, refl, inl, some, [], ◌∷◌, arith, ◌==◌, inc32, if◌then◌else◌, str_eq,
}
use cinquain_meta.Containers.{Ptr, null, by_ptr, by_str, assoc}
use cinquain_meta.Containers.Laws.{plain_lists}
use cinquain_meta.Errno.{success}
use cinquain_meta.Memory.{State, Cnode, Tag, Inode, meta_fs, symlink_iops}
use cinquain_meta.Memory.Actions.{ret}
use cinquain_meta.Cnode.{cnode_lookup_inode}
use cinquain_meta.Create.Request.{Request}
use cinquain_meta.Link.{cinq_rename, cinq_link}
use cinquain_meta.Link.Hard.{cinq_link-cnode_lookup_inode}
use cinquain_meta.Link.Rename.{cinq_rename-cnode_lookup_inode}
use cinquain_meta.Link.Readlink.{byte_at, generic_readlink, generic_readlink-byte_at}
use cinquain_meta.Tests.Names.{memory-IsFresh}
use cinquain_meta.Tests.Removals.{file_entry}
use cinquain_meta.Tests.{
  new_dentry, long_dentry, dir_cnode, dir_inode, dir_tag, file_cnode, file_dentry, file_inode,
  file_tag, memory, node_b,
}

-- a link to `ab`, read into a buffer of one byte
abbrev link_tag : Tag
link_tag = record file_tag { t_symname = some (0x61 ∷ 0x62 ∷ []) }

abbrev link_inode : Inode
link_inode = record file_inode { i_op = symlink_iops }

abbrev linked : State
linked = record memory {
  inodes = λ p. if p == 43 then some link_inode else memory.inodes p;
  tags = λ p. if p == 33 then some link_tag else memory.tags p;
}

readlink-byte_at_example :
    (n : ℕ) × (buffer' : ℕ → ℕ) × (generic_readlink 51 (λ _. 0) 1 linked ≡ ret (n, buffer') linked)
    × (n ≤ 1)
    × (n < 1 → n ≡ 2)
    × ((j : ℕ) → j < n → buffer' j ≡ byte_at (0x61 ∷ 0x62 ∷ []) j)
    × ((j : ℕ) → n ≤ j → buffer' j ≡ 0)
readlink-byte_at_example =
    generic_readlink-byte_at linked 51 file_dentry link_inode link_tag (0x61 ∷ 0x62 ∷ []) (λ _. 0) 1
      refl refl refl refl refl

-- `f`, which the file system inherits, becomes `g`
to_g : Request memory 41 50
to_g = record {
  inode = dir_inode;
  tag = dir_tag;
  cnode = dir_cnode;
  entry = new_dentry;
  at_dir = refl;
  at_tag = refl;
  at_cnode = refl;
  at_dentry = refl;
}

rename-lookup_inode_example :
    (s' : State) × (child : Ptr) × (dc : Cnode) × (after : Cnode) × (cinq_rename 5 41 51 41 50
        memory
      ≡ ret success s')
    × (s'.cnodes 20 ≡ some dc)
    × (plain_lists.find (by_str (0x67 ∷ [])) dc.ci_children ≡ child)
    × (cnode_lookup_inode 1 child 11 s' ≡ ret 43 s')
    × (cnode_lookup_inode 1 21 11 s' ≡ ret null s')
    × (s'.cnodes 21 ≡ some after)
    × ((other : Ptr)
        → 11 ≢ other
        → plain_lists.find (by_ptr other) after.ci_tags
          ≡ plain_lists.find (by_ptr other) file_cnode.ci_tags)
    × ((p : Ptr) (t : Tag)
        → memory.tags p ≡ some t
        → p ≢ null
        → t.t_fs ≢ 11
        → (t' : Tag) × (s'.tags p ≡ some t') × (t'.t_fs ≡ t.t_fs) × (t'.t_inode ≡ t.t_inode))
unfolding meta_fs assoc str_eq file_entry to_g
rename-lookup_inode_example =
    cinq_rename-cnode_lookup_inode memory 41 51 41 50 file_entry to_g (omega arith) 5 0 node_b
      (inl refl) memory-IsFresh (omega arith)
      (inl (refl, (omega arith, refl, (omega arith, refl, tt)), omega arith, omega arith))
      (inl (refl, (omega arith, refl, tt))) (omega arith) (λ cn at ne. absurd (ne refl)) refl
      (omega arith)

-- `g` becomes another name of the file
link-lookup_inode_example :
    (s' : State) × (child : Ptr) × (dc : Cnode) × (i' : Inode) × (t' : Tag) × (cinq_link 5 51 41 50
        memory
      ≡ ret success s')
    × (s'.cnodes 20 ≡ some dc)
    × (plain_lists.find (by_str (0x67 ∷ [])) dc.ci_children ≡ child)
    × (cnode_lookup_inode 1 child 11 s' ≡ ret 43 s')
    × (s'.dentries 50 ≡ some (record new_dentry { d_inode = 43; d_fsdata = 11; d_count = inc32 1 }))
    × (s'.inodes 43 ≡ some i')
    × (i'.i_nlink ≡ inc32 1)
    × (s'.tags 31 ≡ some t')
    × (t'.t_nchild ≡ inc32 0)
unfolding meta_fs assoc str_eq to_g
link-lookup_inode_example =
    cinq_link-cnode_lookup_inode memory 51 41 50 file_dentry file_inode long_dentry to_g refl
      (omega arith) refl refl (omega arith) 5 0 node_b (omega arith) refl refl memory-IsFresh
      (inl (refl, (omega arith, refl, (omega arith, refl, tt)), omega arith, omega arith)) refl
      (omega arith)
