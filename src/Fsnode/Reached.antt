-- ===== src/Fsnode/Reached.antt =====
-- The memories that fsnode_new and fsnode_move lead to, with other operations between them.
use mathlib.Core.Path.{fun_ext}
use cinquain_meta.Common.{
  ℕ, suc, ◌+◌, ◌-◌, ◌<◌, ◌≤◌, ◌≡◌, ◌≢◌, refl, sym, ◌∙◌, ap, subst, ◌⊎◌, inl, inr, true, false, none,
  some, List, [], ◌∷◌, ◌==◌, if◌then◌else◌, arith, length, Bool-cases, ==_refl,
}
use cinquain_meta.Containers.{Ptr, null, by_str, Library}
use cinquain_meta.Memory.{State, Fsnode, meta_fs}
use cinquain_meta.Memory.Actions.{ret, fault, update, left_by}
use cinquain_meta.Fsnode.{take, fsnode_ancestor, fsnode_new, fsnode_move, cfs_find}
use cinquain_meta.Fsnode.Chain.{Parents, parent_of, Chain, elem, ancestors, Chain-acyclic}
use cinquain_meta.Fsnode.Ancestor.{fsnode_ancestor-elem}
use cinquain_meta.Fsnode.New.{fsnode_new-run}
use cinquain_meta.Fsnode.Move.{reparent, fsnode_move-reparent}
use cinquain_meta.Fsnode.Tree.{
  IsTree, Chain-outside, parent_live, fsnode_move-IsTree, fsnode_move-refused,
}

-- META_FS, or a node
abbrev pub IsParent : State → Ptr → Type 0
IsParent s q = (q ≡ meta_fs) ⊎ ((r : Ptr) × (parent_of s q ≡ some r))

module _ ⦃u : Library⦄ where
  -- `n` calls of fsnode_new from a memory without nodes, in any order with moves to other nodes and
  -- with operations that leave the nodes as they are; malloc gives an address where no node is.
  pub data Reached : ℕ → State → Type 0 where
    begun : (s : State) → ((p : Ptr) → parent_of s p ≡ none) → Reached 0 s
    made :
        (n : ℕ) (s s' : State) (parent : Ptr) (name : List ℕ) (fs : Ptr)
        → Reached n s
        → s.fsnodes s.brk ≡ none
        → s.brk ≢ meta_fs
        → IsParent s parent
        → fsnode_new parent name s ≡ ret fs s'
        → Reached (suc n) s'
    moved :
        (n : ℕ) (s s' : State) (rounds : ℕ) (child old parent : Ptr)
        → Reached n s
        → parent_of s child ≡ some old
        → IsParent s parent
        → child ≢ parent
        → n < rounds
        → fsnode_move rounds child parent s ≡ ret tt s'
        → Reached n s'
    elsewhere :
        (n : ℕ) (s s' : State)
        → Reached n s
        → ((p : Ptr) → s'.fsnodes p ≡ s.fsnodes p)
        → Reached n s'

-- a tree whose nodes are on a list of at most `n`
record Grown (n : ℕ) (s : State) : Type 0 where
  tree : IsTree s
  nodes : List Ptr
  all_nodes : (p r : Ptr) → parent_of s p ≡ some r → elem p nodes ≡ true
  few : length nodes ≤ n

-- a list of nodes is no longer than one that has them all
remove : Ptr → List Ptr → List Ptr
remove p [] = []
remove p (q ∷ l) = if q == p then l else q ∷ remove p l

length-remove : (p : Ptr) (l : List Ptr) → elem p l ≡ true → length (remove p l) + 1 ≡ length l
unfolding remove
length-remove p [] h = cc
length-remove p (q ∷ l) h = ground (arith, length-remove p l)

elem-remove : (p q : Ptr) (l : List Ptr) → p ≢ q → elem q l ≡ true → elem q (remove p l) ≡ true
unfolding remove
elem-remove p q [] ne h = h
elem-remove p q (x ∷ l) ne h = ground (arith, elem-remove p q l ne)

Chain-elem :
    (up : Parents) (nodes : List Ptr) (p : Ptr) (l : List Ptr)
    → Chain up p l
    → ((q r : Ptr) → up q ≡ some r → elem q l ≡ true → elem q nodes ≡ true)
    → length l ≤ length nodes
Chain-elem up nodes p [] ch all = omega arith
Chain-elem up nodes p (x ∷ l) ch all =
    let here : elem p nodes ≡ true = all p ch.2 ch.3 (ground (arith, ch.0)) in
    let apart = Chain-acyclic up p x l ch in
    let rest = Chain-elem up (remove p nodes) ch.2 l ch.4 (λ q r at on.
      elem-remove p q nodes (λ e. cc (ap (λ y. elem y l) e, apart, on))
        (all q r at (ground arith))) in
    omega (arith, rest, length-remove p nodes here)

-- an address without a node is on no way
Chain-without :
    (up : Parents) (c p : Ptr) (l : List Ptr) → up c ≡ none → Chain up p l → elem c l ≡ false
Chain-without up c p [] free ch = refl
Chain-without up c p (x ∷ l) free (e, ne, r, at, ch) = elim (Bool-cases (x == c)) [
  | inl hit ↦ let here : p ≡ c = ground arith in cc (ap up here, at, free)
  | inr miss ↦ rw miss (Chain-without up c r l free ch)
]

way_of : (s : State) (q : Ptr) → IsTree s → IsParent s q → (l : List Ptr) × Chain (parent_of s) q l
way_of s q is (inl top) = ([], top)
way_of s q is (inr (r, at)) = is.way_up q r at

-- the rounds that a walk takes
way-few :
    (n : ℕ) (s : State) (p : Ptr) (l : List Ptr)
    → Grown n s
    → Chain (parent_of s) p l
    → length l ≤ n
way-few n s p l g ch =
    let short = Chain-elem (parent_of s) g.nodes p l ch (λ q r at on. g.all_nodes q r at) in
    omega (arith, short, g.few)

module _ (s s' : State) (c q : Ptr) (is : IsTree s) (free : parent_of s c ≡ none)
    (low : c ≢ meta_fs) (below : IsParent s q)
    (same : (p : Ptr) → parent_of s' p ≡ reparent (parent_of s) c q p) where
  -- A way of the old tree is one of the new.
  kept_way : (p : Ptr) (l : List Ptr) → Chain (parent_of s) p l → Chain (parent_of s') p l
  kept_way p l ch =
      subst (λ up. Chain up p l) (sym (fun_ext same))
        (Chain-outside (parent_of s) c q p l (Chain-without (parent_of s) c p l free ch) ch)

  IsTree-made : IsTree s'
  IsTree-made = record {
    way_up = λ p t on. elim (Bool-cases (c == p)) [
      | inl hit ↦
          let (l, ch) = way_of s q is below in
          let here : c ≡ p = ground arith in
          let at : parent_of s' c ≡ some q = same c ∙ rw (==_refl c) refl in
          subst (λ x. (m : List Ptr) × Chain (parent_of s') x m) here
            (c ∷ l, (refl, low, q, at, kept_way q l ch))
      | inr miss ↦ let (l, ch) = is.way_up p t (ground (arith, same p)) in (l, kept_way p l ch)
    ];
    no_meta = same meta_fs ∙ ground (arith, is.no_meta);
  }

IsTree-same : (s s' : State) → IsTree s → ((p : Ptr) → parent_of s' p ≡ parent_of s p) → IsTree s'
IsTree-same s s' is same = record {
  way_up = λ p t on.
      let (l, ch) = is.way_up p t (sym (same p) ∙ on) in
      (l, subst (λ up. Chain up p l) (sym (fun_ext same)) ch);
  no_meta = same meta_fs ∙ is.no_meta;
}

module _ ⦃u : Library⦄ where
  -- fsnode_new of a name that there is leaves the nodes as they were.
  new_dup :
      (s : State) (parent : Ptr) (name : List ℕ)
      → (s.avail == 0) ≡ false
      → (s.brk == null) ≡ false
      → (u.find (by_str name) s.cfs_table == null) ≡ false
      → s.fsnodes s.brk ≡ none
      → (s' : State) × (fsnode_new parent name s ≡ ret null s')
        × ((p : Ptr) → parent_of s' p ≡ parent_of s p)
  unfolding fsnode_new cfs_find
  new_dup s parent name room low dup free =
      let node : Fsnode = record {
        fs_id = s.brk;
        fs_name = take 255 name;
        fs_parent = parent;
        fs_root = null;
        fs_children = [];
      } in
      (
        record s {
          fsnodes = update (update s.fsnodes s.brk (some node)) s.brk none;
          brk = s.brk + 1;
          avail = s.avail - 1;
        },
        rw (room, low, dup) refl,
        λ p. ground arith,
      )

  no_room :
      (s : State) (parent : Ptr) (name : List ℕ)
      → (s.avail == 0) ≡ true
      → fsnode_new parent name s ≡ fault
  unfolding fsnode_new
  no_room s parent name full = rw full refl

  no_address :
      (s : State) (parent : Ptr) (name : List ℕ)
      → (s.avail == 0) ≡ false
      → (s.brk == null) ≡ true
      → fsnode_new parent name s ≡ fault
  unfolding fsnode_new
  no_address s parent name room low = rw (room, low) refl

  faulted : {A B : Type 0} {a : A} {s : State} → ret a s ≡ fault → B
  faulted e = cc

  made_parents :
      (s s' : State) (parent : Ptr) (name : List ℕ) (fs : Ptr)
      → s.fsnodes s.brk ≡ none
      → IsParent s parent
      → fsnode_new parent name s ≡ ret fs s'
      → ((p : Ptr) → parent_of s' p ≡ reparent (parent_of s) s.brk parent p)
        ⊎ ((p : Ptr) → parent_of s' p ≡ parent_of s p)
  made_parents s s' parent name fs free below run = elim (Bool-cases (s.avail == 0)) [
    | inl full ↦ faulted (sym run ∙ no_room s parent name full)
    | inr room ↦ elim (Bool-cases (s.brk == null)) [
      | inl zero_brk ↦ faulted (sym run ∙ no_address s parent name room zero_brk)
      | inr low ↦ elim (Bool-cases (u.find (by_str name) s.cfs_table == null)) [
        | inl absent ↦
            let (t, ran, g) =
              fsnode_new-run s parent name (ground arith) below free (ground arith)
                (ground arith) in
            let left = ap (left_by s) (sym run ∙ ran) in
            inl (λ p. ap (λ x. parent_of x p) left ∙ g.parents p)
        | inr dup ↦
            let (t, ran, same) = new_dup s parent name room low dup free in
            let left = ap (left_by s) (sym run ∙ ran) in
            inr (λ p. ap (λ x. parent_of x p) left ∙ same p)
      ]
    ]
  ]

  Grown-made :
      (n : ℕ) (s s' : State) (parent : Ptr) (name : List ℕ) (fs : Ptr)
      → Grown n s
      → s.fsnodes s.brk ≡ none
      → s.brk ≢ meta_fs
      → IsParent s parent
      → fsnode_new parent name s ≡ ret fs s'
      → Grown (suc n) s'
  Grown-made n s s' parent name fs g free low below run =
      elim (made_parents s s' parent name fs free below run) [
        | inl same ↦ record {
          tree = IsTree-made s s' s.brk parent g.tree (rw (parent_of, free) refl) low below same;
          nodes = s.brk ∷ g.nodes;
          all_nodes = λ p r at. elim (Bool-cases (s.brk == p)) [
            | inl hit ↦ rw hit refl
            | inr miss ↦ rw miss (g.all_nodes p r (ground (arith, same p)))
          ];
          few = omega (arith, g.few);
        }
        | inr same ↦ record {
          tree = IsTree-same s s' g.tree same;
          nodes = g.nodes;
          all_nodes = λ p r at. g.all_nodes p r (sym (same p) ∙ at);
          few = omega (arith, g.few);
        }
      ]

  moved_parents :
      (s s' : State) (rounds : ℕ) (c q r : Ptr) (path : List Ptr)
      → IsTree s
      → parent_of s c ≡ some r
      → Chain (parent_of s) q path
      → length path < rounds
      → fsnode_move rounds c q s ≡ ret tt s'
      → ((p : Ptr) → parent_of s' p ≡ reparent (parent_of s) c q p)
        ⊎ ((p : Ptr) → parent_of s' p ≡ parent_of s p)
  moved_parents s s' rounds c q r path is at ch enough run =
      elim (Bool-cases (elem c (ancestors path))) [
        | inl above ↦
            let left =
              ap (left_by s) (sym run ∙ fsnode_move-refused s rounds c q path ch enough above) in
            inr (λ p. ap (λ x. parent_of x p) left)
        | inr out ↦
            let (t, ran, same) =
              fsnode_move-reparent s rounds c q r path ch enough out at (parent_live s c r is at) in
            let left = ap (left_by s) (sym run ∙ ran) in
            inl (λ p. ap (λ x. parent_of x p) left ∙ same p)
      ]

  Grown-moved :
      (n : ℕ) (s s' : State) (rounds : ℕ) (c r q : Ptr)
      → Grown n s
      → parent_of s c ≡ some r
      → IsParent s q
      → c ≢ q
      → n < rounds
      → fsnode_move rounds c q s ≡ ret tt s'
      → Grown n s'
  Grown-moved n s s' rounds c r q g at below apart many run =
      let (path, ch) = way_of s q g.tree below in
      let short = way-few n s q path g ch in
      let enough : length path < rounds = omega (arith, short) in
      let (t, ran, tree) = fsnode_move-IsTree s rounds c q r path g.tree at ch enough apart in
      let left = ap (left_by s) (sym run ∙ ran) in
      record {
        tree = subst IsTree (sym left) tree;
        nodes = g.nodes;
        all_nodes = λ p x on. elim (moved_parents s s' rounds c q r path g.tree at ch enough run) [
          | inl same ↦ elim (Bool-cases (c == p)) [
            | inl hit ↦
                let here : c ≡ p = ground arith in
                ap (λ y. elem y g.nodes) (sym here) ∙ g.all_nodes c r at
            | inr miss ↦ g.all_nodes p x (ground (arith, same p))
          ]
          | inr same ↦ g.all_nodes p x (sym (same p) ∙ on)
        ];
        few = g.few;
      }

  Reached-Grown : (n : ℕ) (s : State) → Reached n s → Grown n s
  Reached-Grown _ _ (begun s empty) = record {
    tree = record { way_up = λ p r at. cc (at, empty p); no_meta = empty meta_fs };
    nodes = [];
    all_nodes = λ p r at. cc (at, empty p);
    few = omega arith;
  }
  Reached-Grown _ _ (made n s s' parent name fs before free low below run) =
      Grown-made n s s' parent name fs (Reached-Grown n s before) free low below run
  Reached-Grown _ _ (moved n s s' rounds c r q before at below apart many run) =
      Grown-moved n s s' rounds c r q (Reached-Grown n s before) at below apart many run
  Reached-Grown _ _ (elsewhere n s s' before same) =
      let g = Reached-Grown n s before in
      let parents : (p : Ptr) → parent_of s' p ≡ parent_of s p = λ p. rw (parent_of, same p) refl in
      record {
        tree = IsTree-same s s' g.tree parents;
        nodes = g.nodes;
        all_nodes = λ p r at. g.all_nodes p r (sym (parents p) ∙ at);
        few = g.few;
      }

  -- In every memory that is reached from one without file systems by `n` calls of fsnode_new, by
  -- moves of a file system to another one or to META_FS, and by operations that leave the file
  -- systems as they are, these are a forest under META_FS, and the walk of fsnode_ancestor_ from
  -- any of them ends within `n + 1` rounds, with no fault, and says whether the node sought is a
  -- proper ancestor.
  pub Reached-fsnode_ancestor :
      (n : ℕ) (s : State) (p r : Ptr)
      → Reached n s
      → parent_of s p ≡ some r
      → IsTree s
        × (path : List Ptr) × Chain (parent_of s) p path
        × ((a : Ptr) → fsnode_ancestor (n + 1) a p s ≡ ret (elem a (ancestors path)) s)
  Reached-fsnode_ancestor n s p r reached at =
      let g = Reached-Grown n s reached in
      let (path, ch) = g.tree.way_up p r at in
      let short = way-few n s p path g ch in
      (g.tree, path, ch, λ a. fsnode_ancestor-elem s (n + 1) a p path ch (omega (arith, short)))
