-- ===== src/Fsnode/Move.antt =====
-- fsnode_move: what it does to the tree.
use cinquain_meta.Common.{
  ℕ, ◌<◌, ◌≡◌, refl, ◌≢◌, inl, inr, false, some, List, [], ◌∷◌, arith, ◌==◌, if◌then◌else◌, length,
  Bool-cases, ◌∙◌, ◌⊎◌, ap,
}
use cinquain_meta.Containers.{by_ptr, Ptr, Library}
use cinquain_meta.Memory.{State, Fsnode, meta_fs}
use cinquain_meta.Memory.Actions.{M, update, set_fsnode, ret, Run, ◌>>◌, skip}
use cinquain_meta.Fsnode.{fsnode_ancestor, fsnode_move, drop_child, add_child}
use cinquain_meta.Fsnode.Chain.{Parents, parent_of, Chain, elem, ancestors, node_of_parent}
use cinquain_meta.Fsnode.Ancestor.{fsnode_ancestor-elem}

-- The parents after `c` was given the parent `q`.
abbrev pub reparent : Parents → Ptr → Ptr → Parents
reparent up c q p = if c == p then some q else up p

-- The same parents, as a property of the memory that a run leaves.
abbrev Leaves : Parents → Run (Unit {0}) → Type 0
Leaves up run = (s' : State) × (run ≡ ret tt s') × ((p : Ptr) → parent_of s' p ≡ up p)

module _ ⦃u : Library⦄ where
  drop_child-Leaves :
      (s : State) (q c r : Ptr) → parent_of s q ≡ some r → Leaves (parent_of s) (drop_child q c s)
  drop_child-Leaves s q c r at =
      let (f, live, up) = node_of_parent s q r at in
      (
        record s {
          fsnodes = update s.fsnodes q (some (record f { fs_children = u.delete c f.fs_children }));
        },
        ground arith,
        λ p. ground arith,
      )

  add_child-Leaves :
      (s : State) (q c r t : Ptr)
      → parent_of s q ≡ some r
      → parent_of s c ≡ some t
      → Leaves (parent_of s) (add_child q c s)
  add_child-Leaves s q c r t at at' =
      let (f, live, up) = node_of_parent s q r at in
      let (g, live', up') = node_of_parent s c t at' in
      (
        record s {
          fsnodes =
              update s.fsnodes q
                (some (record f { fs_children = u.add (by_ptr g.fs_id) c f.fs_children }));
        },
        ground arith,
        λ p. ground arith,
      )

  set_parent-Leaves :
      (s : State) (c q r : Ptr)
      → parent_of s c ≡ some r
      → Leaves (reparent (parent_of s) c q) (set_fsnode c (λ f. record f { fs_parent = q }) s)
  set_parent-Leaves s c q r at =
      let (f, live, up) = node_of_parent s c r at in
      (
        record s { fsnodes = update s.fsnodes c (some (record f { fs_parent = q })) },
        ground arith,
        λ p. ground arith,
      )

  bind-Leaves :
      {up up' : Parents} (m k : M (Unit {0})) (s : State)
      → Leaves up (m s)
      → ((s' : State) → ((p : Ptr) → parent_of s' p ≡ up p) → Leaves up' (k s'))
      → Leaves up' ((m >> k) s)
  bind-Leaves m k s (s1, e, same) next = rw e (next s1 same)

  Leaves-if_meta :
      {up : Parents} (q : Ptr) (m : M (Unit {0})) (s : State)
      → ((p : Ptr) → parent_of s p ≡ up p)
      → (q ≢ meta_fs → Leaves up (m s))
      → Leaves up ((if q == meta_fs then skip else m) s)
  Leaves-if_meta q m s same otherwise = elim (Bool-cases (q == meta_fs)) [
    | inl top ↦ rw top (s, refl, same)
    | inr low ↦ rw low (otherwise (ground arith))
  ]

  parent_of-Chain :
      (s : State) (q : Ptr) (path : List Ptr)
      → Chain (parent_of s) q path
      → q ≢ meta_fs
      → (r : Ptr) × (parent_of s q ≡ some r)
  parent_of-Chain s q [] c ne = absurd (ne c)
  parent_of-Chain s q (x ∷ l) c ne = (c.2, c.3)

  -- Where `child` is no proper ancestor of the new parent, fsnode_move ends with no fault, makes
  -- that the parent of `child`, and keeps the parent of every other node.
  pub fsnode_move-reparent :
      (s : State) (n : ℕ) (child new_parent old_parent : Ptr) (path : List Ptr)
      → Chain (parent_of s) new_parent path
      → length path < n
      → elem child (ancestors path) ≡ false
      → parent_of s child ≡ some old_parent
      → (old_parent ≡ meta_fs) ⊎ ((r : Ptr) × (parent_of s old_parent ≡ some r))
      → (s' : State) × (fsnode_move n child new_parent s ≡ ret tt s')
        × ((p : Ptr) → parent_of s' p ≡ (if child == p then some new_parent else parent_of s p))
  unfolding fsnode_move
  fsnode_move-reparent s n c q r path chain enough out at old =
      let (f, live, up) = node_of_parent s c r at in
      let no_cycle : fsnode_ancestor n c q s ≡ ret false s =
        fsnode_ancestor-elem s n c q path chain enough ∙ rw out in
      let (s1, ran1, same1) =
        Leaves-if_meta {up = parent_of s} f.fs_parent (drop_child f.fs_parent c) s (λ p. refl)
          (λ low. drop_old f r up old low) in
      let (s2, ran2, same2) = set_parent-Leaves s1 c q r (same1 c ∙ at) in
      let (s3, ran3, same3) =
        Leaves-if_meta {up = parent_of s2} q (add_child q c) s2 (λ p. refl)
          (λ low. add_new s1 s2 same1 same2 low) in
      (s3, rw (no_cycle, live, ran1, ran2, ran3), λ p. ground (arith, same3 p, same2 p, same1 p))
    where
      drop_old :
          (f : Fsnode) (r : Ptr)
          → f.fs_parent ≡ r
          → (r ≡ meta_fs) ⊎ ((x : Ptr) × (parent_of s r ≡ some x))
          → f.fs_parent ≢ meta_fs
          → Leaves (parent_of s) (drop_child f.fs_parent c s)
      drop_old f r up (inl top) low = absurd (low (up ∙ top))
      drop_old f r up (inr (x, on)) low =
          drop_child-Leaves s f.fs_parent c x (ap (parent_of s) up ∙ on)

      add_new :
          (s1 s2 : State)
          → ((p : Ptr) → parent_of s1 p ≡ parent_of s p)
          → ((p : Ptr) → parent_of s2 p ≡ reparent (parent_of s1) c q p)
          → q ≢ meta_fs
          → Leaves (parent_of s2) (add_child q c s2)
      add_new s1 s2 same1 same2 low =
          let (x, on) = parent_of-Chain s q path chain low in
          add_child-Leaves s2 q c (if c == q then q else x) q (ground (arith, same2 q, same1 q))
            (ground (arith, same2 c))
