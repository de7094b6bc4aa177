-- ===== src/Remove/Empty.antt =====
-- cinq_empty_dir_ and cinq_rmdir: which directories a file system may remove.
use cinquain_meta.Common.{
  ℕ, zero, suc, ◌<◌, ◌≡◌, ◌≢◌, refl, inl, inr, Bool, true, false, Option, none, some, List, [], ◌∷◌,
  ◌==◌, if◌then◌else◌, arith, length, Bool-cases,
}
use cinquain_meta.Containers.{Ptr, null, Library}
use cinquain_meta.Errno.{failure, enotempty}
use cinquain_meta.Memory.{State, Tag, Cnode}
use cinquain_meta.Memory.Actions.{ret}
use cinquain_meta.Fsnode.Chain.{parent_of, Chain, node_of_parent}
use cinquain_meta.Tag.{impenetrable, negative, i_cnode, cnode_find_tag}
use cinquain_meta.Cnode.{foreach_ancestor_tag, cnode_find_child}
use cinquain_meta.Cnode.Nearest.{tag_of}
use cinquain_meta.Remove.{nonzero_nchild, is_none, cinq_empty_dir, cinq_rmdir}
use cinquain_meta.Remove.Unlink.{Entry}

-- No tag of the file systems of a list counts a child, up to the first negative one.
abbrev pub no_children : (Ptr → Option Tag) → (Ptr → Ptr) → List Ptr → Bool
no_children tags tag_of [] = true
no_children tags tag_of (f ∷ l) =
    let rest = no_children tags tag_of l in
    elim (tags (tag_of f)) [
      | none ↦ rest
      | some t ↦ if t.t_inode == null then true else if t.t_nchild == 0 then rest else false
    ]

-- Each tag in the table is one, of the file system that it is found by, and NULL is none.
abbrev pub TagsOwned : State → (Ptr → Ptr) → Type 0
TagsOwned s tag_of =
    (s.tags null ≡ none)
    × ((fs : Ptr) → tag_of fs ≢ null → (t : Tag) × (s.tags (tag_of fs) ≡ some t) × (t.t_fs ≡ fs))

module _ ⦃u : Library⦄ (s : State) (c : Ptr) (cn : Cnode) (at_c : s.cnodes c ≡ some cn) where
  loop-no_children :
      (n : ℕ) (fs : Ptr) (path : List Ptr)
      → Chain (parent_of s) fs path
      → length path < n
      → TagsOwned s (tag_of s c cn at_c)
      → (r : Option ℕ) × (foreach_ancestor_tag n c fs (tag_of s c cn at_c fs) nonzero_nchild s
          ≡ ret r s)
        × (is_none r ≡ no_children s.tags (tag_of s c cn at_c) path)
  unfolding foreach_ancestor_tag impenetrable negative is_none
  loop-no_children zero fs path ch enough own = elim enough [ ]
  loop-no_children (suc n) fs [] ch enough own = (none, ground arith, refl)
  loop-no_children (suc n) fs (x ∷ l) (e, ne, r, at, ch) enough own =
      let (f, here, up) = node_of_parent s fs r at in
      let (v, ran, same) = loop-no_children n r l ch (omega arith) own in
      elim (Bool-cases (tag_of s c cn at_c fs == null)) [
        | inl absent ↦ (v, ground (arith, at_c, own.0), ground (arith, own.0))
        | inr present ↦
            let (t, held, its) = own.1 fs (ground arith) in
            elim (Bool-cases (t.t_inode == null)) [
              | inl closed ↦ (none, ground (arith, at_c), ground arith)
              | inr through ↦ elim (Bool-cases (t.t_nchild == 0)) [
                | inl zero_children ↦ (v, ground (arith, at_c), ground arith)
                | inr some_children ↦ (some t.t_nchild, ground (arith, at_c), ground arith)
              ]
            ]
      ]

  -- With more rounds than the chain of the file system has nodes, cinq_empty_dir_ ends with no
  -- fault, changes nothing, and says whether no tag on the chain counts a child, the file system's
  -- own first, up to the first negative tag: a file system that removed the directory before sees
  -- none of the children that its ancestors made.
  pub empty_dir-no_children :
      (n : ℕ) (fs : Ptr) (path : List Ptr)
      → Chain (parent_of s) fs path
      → length path < n
      → TagsOwned s (tag_of s c cn at_c)
      → cinq_empty_dir n c fs s ≡ ret (no_children s.tags (tag_of s c cn at_c) path) s
  unfolding cinq_empty_dir cnode_find_tag
  empty_dir-no_children n fs path ch enough own =
      let (r, ran, same) = loop-no_children n fs path ch enough own in rw (at_c, ran, same)

module _ ⦃u : Library⦄ where
  -- cinq_rmdir of a directory in which the file system that makes the request sees a counted
  -- child, by a tag of its own or of an ancestor, returns ENOTEMPTY, and nothing changes.
  pub rmdir-not_empty :
      (s : State) (n : ℕ) (dir dentry : Ptr) (e : Entry s dir dentry) (path : List Ptr)
      → Chain (parent_of s) e.entry.d_fsdata path
      → length path < n
      → TagsOwned s (tag_of s e.child e.cnode e.at_child)
      → no_children s.tags (tag_of s e.child e.cnode e.at_child) path ≡ false
      → cinq_rmdir n dir dentry s ≡ ret (failure enotempty) s
  unfolding cinq_rmdir i_cnode cnode_find_child
  rmdir-not_empty s n dir dentry e path ch enough own full =
      let seen =
        empty_dir-no_children s e.child e.cnode e.at_child n e.entry.d_fsdata path ch enough own in
      let r_ne : (e.entry.d_fsdata == null) ≡ false = ground (arith, e.has_request) in
      rw (e.at_dentry, e.at_dentry, r_ne, e.at_dir, e.at_tag, e.at_dir_cnode, e.by_name, seen, full)
