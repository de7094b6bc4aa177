-- ===== src/Tests/Trees.antt =====
-- The tree of file system nodes, at the concrete memory.
use cinquain_meta.Common.{
  ℕ, ◌≡◌, refl, inl, inr, true, some, List, [], ◌∷◌, arith, ◌==◌, if◌then◌else◌, Bool-cases, subst,
  str_eq,
}
use cinquain_meta.Containers.{Ptr, by_str, IsTable, assoc}
use cinquain_meta.Containers.Laws.{plain_lists}
use cinquain_meta.Memory.{State, meta_fs}
use cinquain_meta.Memory.Actions.{ret, diverges}
use cinquain_meta.Fsnode.{fsnode_new, fsnode_move, fsnode_ancestor}
use cinquain_meta.Fsnode.New.{fsnode_new-cfs_find}
use cinquain_meta.Fsnode.Chain.{Chain, parent_of}
use cinquain_meta.Fsnode.Ancestor.{fsnode_ancestor-elem}
use cinquain_meta.Fsnode.Move.{fsnode_move-reparent}
use cinquain_meta.Fsnode.Tree.{IsTree, fsnode_move-IsTree, fsnode_move_self, fsnode_move-refused}
use cinquain_meta.Tests.{memory}

way_a : Chain (parent_of memory) 10 (10 ∷ [])
unfolding meta_fs
way_a = (refl, omega arith, meta_fs, refl, refl)

pub way_b : Chain (parent_of memory) 11 (11 ∷ 10 ∷ [])
unfolding meta_fs
way_b = (refl, omega arith, 10, refl, way_a)

memory-IsTree : IsTree memory
unfolding meta_fs
memory-IsTree = record { way_up = λ p r at. up p r at; no_meta = refl }
  where
    up : (p r : Ptr) → parent_of memory p ≡ some r → (l : List Ptr) × Chain (parent_of memory) p l
    up p r at = elim (Bool-cases (p == 10)) [
      | inl a ↦ (10 ∷ [], subst (λ x. Chain (parent_of memory) x (10 ∷ [])) (ground arith) way_a)
      | inr not_a ↦ elim (Bool-cases (p == 11)) [
        | inl b ↦ (
          11 ∷ 10 ∷ [],
          subst (λ x. Chain (parent_of memory) x (11 ∷ 10 ∷ [])) (ground arith) way_b,
        )
        | inr not_b ↦ absurd (ground arith)
      ]
    ]

ancestor-elem_example : fsnode_ancestor 5 10 11 memory ≡ ret true memory
ancestor-elem_example = fsnode_ancestor-elem memory 5 10 11 (11 ∷ 10 ∷ []) way_b (omega arith)

move-IsTree_example : (s' : State) × (fsnode_move 5 11 meta_fs memory ≡ ret tt s') × IsTree s'
unfolding meta_fs
move-IsTree_example =
    fsnode_move-IsTree memory 5 11 meta_fs 10 [] memory-IsTree refl refl (omega arith) (omega arith)

move-reparent_example :
    (s' : State) × (fsnode_move 5 11 meta_fs memory ≡ ret tt s')
    × ((p : Ptr) → parent_of s' p ≡ (if 11 == p then some meta_fs else parent_of memory p))
unfolding meta_fs
move-reparent_example =
    fsnode_move-reparent memory 5 11 meta_fs 10 [] refl (omega arith) refl refl
      (inr (meta_fs, refl))

move-refused_example : fsnode_move 5 10 11 memory ≡ ret tt memory
move-refused_example = fsnode_move-refused memory 5 10 11 (11 ∷ 10 ∷ []) way_b (omega arith) refl

move-self_example :
    (s' : State) × (fsnode_move 5 11 11 memory ≡ ret tt s')
    × (parent_of s' 11 ≡ some 11)
    × (fsnode_ancestor 1000 10 11 s' ≡ diverges)
move-self_example =
    fsnode_move_self memory 5 11 10 (11 ∷ 10 ∷ []) 1000 10 memory-IsTree refl way_b (omega arith)
      (omega arith)

fsnode_new-cfs_find_example :
    (s' : State) × (fsnode_new 10 (0x63 ∷ []) memory ≡ ret 100 s')
    × ((p : Ptr) → parent_of s' p ≡ (if 100 == p then some 10 else parent_of memory p))
    × ((other : List ℕ)
        → plain_lists.find (by_str other) s'.cfs_table ≡ (
            if str_eq (0x63 ∷ []) other
            then 100
            else plain_lists.find (by_str other) memory.cfs_table))
    × IsTable s'.cfs_table
unfolding meta_fs assoc str_eq
fsnode_new-cfs_find_example =
    fsnode_new-cfs_find memory 10 (0x63 ∷ []) (omega arith) refl
      (omega arith, refl, (omega arith, refl, tt)) (inr (meta_fs, refl)) refl (omega arith)
      (omega arith)
