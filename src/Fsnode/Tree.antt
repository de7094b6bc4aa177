-- ===== src/Fsnode/Tree.antt =====
-- The file system nodes stay a forest under META_FS, but for a move of a node below itself.
use mathlib.Core.Path.{fun_ext}
use cinquain_meta.Common.{
  ℕ, ◌<◌, ◌≡◌, refl, ◌≢◌, inl, inr, true, false, none, some, List, [], ◌∷◌, ◌++◌, arith, ◌==◌,
  if◌then◌else◌, length, Bool-cases, sym, ◌∙◌, ◌⊎◌, ap, subst,
}
use cinquain_meta.Containers.{Ptr, Library}
use cinquain_meta.Memory.{State, meta_fs}
use cinquain_meta.Memory.Actions.{ret, diverges}
use cinquain_meta.Fsnode.{fsnode_ancestor, fsnode_move}
use cinquain_meta.Fsnode.Chain.{Parents, parent_of, Chain, elem, ancestors, Chain-acyclic}
use cinquain_meta.Fsnode.Ancestor.{fsnode_ancestor-elem, fsnode_ancestor_self}
use cinquain_meta.Fsnode.Move.{reparent, fsnode_move-reparent}

-- Every node has a way up to META_FS, which is no node itself.
pub record IsTree (s : State) : Type 0 where
  pub way_up : (p r : Ptr) → parent_of s p ≡ some r → (l : List Ptr) × Chain (parent_of s) p l
  pub no_meta : parent_of s meta_fs ≡ none

module _ (up : Parents) (c q : Ptr) where
  pub Chain-outside :
      (p : Ptr) (l : List Ptr) → elem c l ≡ false → Chain up p l → Chain (reparent up c q) p l
  Chain-outside p [] out ch = ch
  Chain-outside p (x ∷ l) out (e, ne, r, at, ch) =
      (e, ne, r, ground arith, Chain-outside r l (ground arith) ch)

  graft : List Ptr → List Ptr → List Ptr
  graft path [] = []
  graft path (x ∷ l) = if x == c then c ∷ path else x ∷ graft path l

  Chain-graft :
      (p : Ptr) (l path : List Ptr)
      → Chain up p l
      → Chain (reparent up c q) q path
      → Chain (reparent up c q) p (graft path l)
  unfolding graft
  Chain-graft p [] path ch under = ch
  Chain-graft p (x ∷ l) path (e, ne, r, at, ch) under = elim (Bool-cases (x == c)) [
    | inl hit ↦ rw hit (ground arith, ne, q, ground arith, under)
    | inr miss ↦ rw miss (e, ne, r, ground arith, Chain-graft r l path ch under)
  ]

elem-append_left : (c : Ptr) (l m : List Ptr) → elem c (l ++ m) ≡ false → elem c l ≡ false
elem-append_left c [] m h = refl
elem-append_left c (x ∷ l) m h = ground (arith, elem-append_left c l m)

not-elem_of_ancestors :
    (c q : Ptr) (up : Parents) (path : List Ptr)
    → Chain up q path
    → elem c (ancestors path) ≡ false
    → c ≢ q
    → elem c path ≡ false
not-elem_of_ancestors c q up [] ch out ne = refl
not-elem_of_ancestors c q up (x ∷ l) ch out ne =
    ground (arith, ch.0, elem-append_left c l (meta_fs ∷ []) out)

-- The parent of a node of the tree is META_FS or a node.
pub parent_live :
    (s : State) (c r : Ptr)
    → IsTree s
    → parent_of s c ≡ some r
    → (r ≡ meta_fs) ⊎ ((x : Ptr) × (parent_of s r ≡ some x))
parent_live s c r is at = let (l, ch) = is.way_up c r at in split l ch
  where
    above :
        (l : List Ptr)
        → Chain (parent_of s) r l
        → (r ≡ meta_fs) ⊎ ((x : Ptr) × (parent_of s r ≡ some x))
    above [] ch = inl ch
    above (y ∷ l) ch = inr (ch.2, ch.3)

    split :
        (l : List Ptr)
        → Chain (parent_of s) c l
        → (r ≡ meta_fs) ⊎ ((x : Ptr) × (parent_of s r ≡ some x))
    split [] ch = cc (ap (parent_of s) ch, at, is.no_meta)
    split (y ∷ l) ch =
        let same : ch.2 ≡ r = cc (ch.3, at) in
        above l (subst (λ x. Chain (parent_of s) x l) same ch.4)

-- A forest stays one under a change of a parent to a node outside the subtree.
IsTree-reparent :
    (s s' : State) (c q r : Ptr) (path : List Ptr)
    → IsTree s
    → parent_of s c ≡ some r
    → Chain (parent_of s) q path
    → elem c path ≡ false
    → ((p : Ptr) → parent_of s' p ≡ reparent (parent_of s) c q p)
    → IsTree s'
IsTree-reparent s s' c q r path is at ch out same = record {
  way_up = λ p t on.
      let (l, up) = old p t on in
      (
        graft (parent_of s) c q path l,
        subst (λ parents. Chain parents p (graft (parent_of s) c q path l)) (sym (fun_ext same))
            (Chain-graft (parent_of s) c q p l path up
              (Chain-outside (parent_of s) c q q path out ch)),
      );
  no_meta = same meta_fs ∙ ground (arith, is.no_meta);
}
  where
    old : (p t : Ptr) → parent_of s' p ≡ some t → (l : List Ptr) × Chain (parent_of s) p l
    old p t on = elim (Bool-cases (c == p)) [
      | inl hit ↦
          subst (λ x. (l : List Ptr) × Chain (parent_of s) x l) (ground arith) (is.way_up c r at)
      | inr miss ↦ is.way_up p t (ground (arith, same p))
    ]

module _ ⦃u : Library⦄ where
  -- Where `child` is a proper ancestor of the new parent, fsnode_move changes nothing.
  pub fsnode_move-refused :
      (s : State) (n : ℕ) (child new_parent : Ptr) (path : List Ptr)
      → Chain (parent_of s) new_parent path
      → length path < n
      → elem child (ancestors path) ≡ true
      → fsnode_move n child new_parent s ≡ ret tt s
  unfolding fsnode_move
  fsnode_move-refused s n c q path ch enough above =
      rw (fsnode_ancestor-elem s n c q path ch enough, above)

  -- In a forest, fsnode_move to a parent whose chain is shorter than the rounds given, other than
  -- the node itself, ends with no fault and leaves a forest.
  pub fsnode_move-IsTree :
      (s : State) (n : ℕ) (child new_parent old_parent : Ptr) (path : List Ptr)
      → IsTree s
      → parent_of s child ≡ some old_parent
      → Chain (parent_of s) new_parent path
      → length path < n
      → child ≢ new_parent
      → (s' : State) × (fsnode_move n child new_parent s ≡ ret tt s') × IsTree s'
  fsnode_move-IsTree s n c q r path is at ch enough ne =
      elim (Bool-cases (elem c (ancestors path))) [
        | inl above ↦ (s, fsnode_move-refused s n c q path ch enough above, is)
        | inr out ↦
            let (s', ran, same) =
              fsnode_move-reparent s n c q r path ch enough out at (parent_live s c r is at) in
            let out' = not-elem_of_ancestors c q (parent_of s) path ch out ne in
            (s', ran, IsTree-reparent s s' c q r path is at ch out' same)
      ]

  -- From a forest, fsnode_move of a node to itself is not refused: it ends with no fault and makes
  -- the node its own parent, and from then on the walk of fsnode_ancestor_ from it that looks for
  -- another node has not ended after any number of rounds.
  pub fsnode_move_self :
      (s : State) (n : ℕ) (child old_parent : Ptr) (path : List Ptr) (rounds : ℕ) (other : Ptr)
      → IsTree s
      → parent_of s child ≡ some old_parent
      → Chain (parent_of s) child path
      → length path < n
      → other ≢ child
      → (s' : State) × (fsnode_move n child child s ≡ ret tt s')
        × (parent_of s' child ≡ some child)
        × (fsnode_ancestor rounds other child s' ≡ diverges)
  fsnode_move_self s n c r [] m a is at ch enough other = cc (ap (parent_of s) ch, at, is.no_meta)
  fsnode_move_self s n c r (x ∷ l) m a is at ch enough other =
      let out = not-elem-above c l (Chain-acyclic (parent_of s) c x l ch) ch.1 in
      let (s', ran, same) =
        fsnode_move-reparent s n c c r (x ∷ l) ch enough out at (parent_live s c r is at) in
      let loop : parent_of s' c ≡ some c = ground (arith, same c) in
      (s', ran, loop, fsnode_ancestor_self s' m a c loop ch.1 other)
    where
      not-elem-above :
          (c : Ptr) (l : List Ptr)
          → elem c l ≡ false
          → c ≢ meta_fs
          → elem c (l ++ meta_fs ∷ []) ≡ false
      not-elem-above c [] out ne = ground arith
      not-elem-above c (y ∷ l) out ne = ground (arith, not-elem-above c l)
