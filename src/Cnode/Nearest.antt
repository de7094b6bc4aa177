-- ===== src/Cnode/Nearest.antt =====
-- What a file system sees at a cnode: the inode of the nearest tag on its way up.
use cinquain_meta.Common.{
  ℕ, zero, suc, ◌<◌, ◌≡◌, refl, ◌≢◌, inl, inr, Option, none, some, List, [], ◌∷◌, arith, ◌==◌,
  if◌then◌else◌, length, Bool-cases,
}
use cinquain_meta.Containers.{Ptr, null, by_ptr, Library}
use cinquain_meta.Memory.{State, Tag, Cnode, Fsnode, meta_fs}
use cinquain_meta.Memory.Actions.{ret}
use cinquain_meta.Fsnode.Chain.{parent_of, Chain, node_of_parent}
use cinquain_meta.Tag.{impenetrable}
use cinquain_meta.Cnode.{foreach_ancestor_tag, return_inode, cnode_lookup_inode, or_null}

-- The first tag that the file systems of a list have, NULL where none has one.
abbrev pub nearest : (Ptr → Ptr) → List Ptr → Ptr
nearest tag_of [] = null
nearest tag_of (f ∷ l) = if tag_of f == null then nearest tag_of l else tag_of f

-- tag->t_inode, NULL for a negative tag and where there is no tag.
abbrev pub inode_of : State → Ptr → Ptr
inode_of s tag =
    if tag == null then null else elim (s.tags tag) [ none ↦ null | some t ↦ t.t_inode ]

module _ ⦃u : Library⦄ (s : State) (c : Ptr) (cn : Cnode) (at_c : s.cnodes c ≡ some cn) where
  -- the tag of a file system at this cnode
  abbrev pub tag_of : Ptr → Ptr
  tag_of fs = u.find (by_ptr fs) cn.ci_tags

  -- Each tag in the table is one.
  abbrev pub TagsLive : Type 0
  TagsLive = (fs : Ptr) → tag_of fs ≢ null → (t : Tag) × (s.tags (tag_of fs) ≡ some t)

  loop-nearest :
      (n : ℕ) (fs : Ptr) (path : List Ptr)
      → Chain (parent_of s) fs path
      → length path < n
      → TagsLive
      → (r : Option Ptr) × (foreach_ancestor_tag n c fs (tag_of fs) return_inode s ≡ ret r s)
        × (or_null r ≡ inode_of s (nearest tag_of path))
  unfolding foreach_ancestor_tag or_null impenetrable
  loop-nearest zero fs path ch enough live = elim enough [ ]
  loop-nearest (suc n) fs [] ch enough live = (none, ground arith, refl)
  loop-nearest (suc n) fs (x ∷ l) (e, ne, r, at, ch) enough live =
      let (f, here, up) = node_of_parent s fs r at in
      elim (Bool-cases (tag_of fs == null)) [
        | inl absent ↦
            let (v, ran, same) = loop-nearest n r l ch (omega arith) live in
            (v, ground (arith, at_c), ground arith)
        | inr present ↦
            let (t, held) = live fs (ground arith) in
            elim (Bool-cases (impenetrable t fs)) [
              | inl closed ↦ (none, ground (arith, at_c), ground arith)
              | inr through ↦ (some t.t_inode, ground (arith, at_c), ground arith)
            ]
      ]

  -- With more rounds than the chain of `req_fs` has nodes, cnode_lookup_inode ends with no fault,
  -- changes nothing, and returns the inode of the nearest tag on the chain, the request's own
  -- first: NULL if that tag is negative or no node of the chain has one. The visibility of a tag
  -- plays no part.
  pub lookup-nearest :
      (n : ℕ) (req_fs : Ptr) (path : List Ptr)
      → Chain (parent_of s) req_fs path
      → length path < n
      → TagsLive
      → cnode_lookup_inode n c req_fs s ≡ ret (inode_of s (nearest tag_of path)) s
  unfolding cnode_lookup_inode
  lookup-nearest n fs path ch enough live =
      let (r, ran, same) = loop-nearest n fs path ch enough live in rw (at_c, ran, same)

module _ ⦃u : Library⦄ where
  -- A file system with a tag of its own sees the inode of that tag.
  pub lookup-own :
      (s : State) (fuel : ℕ) (c fs : Ptr) (cn : Cnode) (f : Fsnode) (t : Tag)
      → s.cnodes c ≡ some cn
      → s.fsnodes fs ≡ some f
      → s.tags (u.find (by_ptr fs) cn.ci_tags) ≡ some t
      → t.t_fs ≡ fs
      → u.find (by_ptr fs) cn.ci_tags ≢ null
      → fs ≢ meta_fs
      → cnode_lookup_inode (suc fuel) c fs s ≡ ret t.t_inode s
  unfolding cnode_lookup_inode foreach_ancestor_tag or_null impenetrable
  lookup-own s fuel c fs cn f t at_c at_fs at_tag own ne low = ground arith
