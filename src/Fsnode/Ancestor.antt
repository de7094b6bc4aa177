-- ===== src/Fsnode/Ancestor.antt =====
-- fsnode_ancestor_ against the chain of parents.
use cinquain_meta.Common.{
  ℕ, zero, suc, ◌<◌, ◌≡◌, refl, ◌≢◌, some, List, [], ◌∷◌, arith, length, ==_refl,
}
use cinquain_meta.Containers.{Ptr}
use cinquain_meta.Memory.{State, meta_fs}
use cinquain_meta.Memory.Actions.{ret, diverges}
use cinquain_meta.Fsnode.{fsnode_ancestor}
use cinquain_meta.Fsnode.Chain.{parent_of, Chain, elem, ancestors, node_of_parent}

module _ (s : State) where
  -- With more rounds than the chain of `descendant` has nodes, fsnode_ancestor_ ends with no fault,
  -- changes nothing, and says whether `ancestor` is among the proper ancestors of `descendant`,
  -- META_FS included.
  pub fsnode_ancestor-elem :
      (n : ℕ) (ancestor descendant : Ptr) (path : List Ptr)
      → Chain (parent_of s) descendant path
      → length path < n
      → fsnode_ancestor n ancestor descendant s ≡ ret (elem ancestor (ancestors path)) s
  unfolding fsnode_ancestor
  fsnode_ancestor-elem zero a d path c h = elim h [ ]
  fsnode_ancestor-elem (suc n) a d [] c h = rw (c, ==_refl meta_fs)
  fsnode_ancestor-elem (suc n) a d (x ∷ []) (e, ne, r, at, c) h =
      let (f, live, up) = node_of_parent s d r at in ground (arith, fsnode_ancestor-elem n a r [] c)
  fsnode_ancestor-elem (suc n) a d (x ∷ y ∷ l) (e, ne, r, at, c) h =
      let (f, live, up) = node_of_parent s d r at in
      ground (arith, fsnode_ancestor-elem n a r (y ∷ l) c)

  -- A node that is its own parent sends the walk round for ever, unless it looks for that node.
  pub fsnode_ancestor_self :
      (n : ℕ) (a p : Ptr)
      → parent_of s p ≡ some p
      → p ≢ meta_fs
      → a ≢ p
      → fsnode_ancestor n a p s ≡ diverges
  unfolding fsnode_ancestor
  fsnode_ancestor_self zero a p at ne other = refl
  fsnode_ancestor_self (suc n) a p at ne other =
      let (f, live, up) = node_of_parent s p p at in
      ground (arith, fsnode_ancestor_self n a p at ne other)
