-- ===== src/Fsnode/Chain.antt =====
-- The way from a file system node up to META_FS.
use cinquain_meta.Common.{
  ◌≤◌, ◌≡◌, refl, ◌≢◌, inl, inr, sym, ◌∙◌, Bool, true, false, Option, none, some, List, [], ◌∷◌,
  ◌++◌, ◌||◌, arith, ◌==◌, length, Bool-cases, ap,
}
use cinquain_meta.Containers.{Ptr}
use cinquain_meta.Memory.{State, Fsnode, meta_fs}

abbrev pub Parents : Type 0
Parents = Ptr → Option Ptr

-- fs->fs_parent, where there is a node
abbrev pub parent_of : State → Parents
parent_of s p = elim (s.fsnodes p) [ none ↦ none | some f ↦ some f.fs_parent ]

-- The nodes from `p` upwards, META_FS not among them.
abbrev pub Chain : Parents → Ptr → List Ptr → Type 0
Chain up p [] = p ≡ meta_fs
Chain up p (q ∷ l) = (q ≡ p) × (p ≢ meta_fs) × (r : Ptr) × (up p ≡ some r) × Chain up r l

abbrev pub elem : Ptr → List Ptr → Bool
elem a [] = false
elem a (x ∷ xs) = (x == a) || elem a xs

some_inj : {a b : Ptr} → some a ≡ some b → a ≡ b
some_inj e = cc

module _ (up : Parents) where
  pub Chain-unique : (p : Ptr) (l m : List Ptr) → Chain up p l → Chain up p m → l ≡ m
  Chain-unique p [] [] c d = refl
  Chain-unique p [] (y ∷ m) c d = absurd (d.1 c)
  Chain-unique p (x ∷ l) [] c d = absurd (c.1 d)
  Chain-unique p (x ∷ l) (y ∷ m) (e, ne, r, at, c) (e', ne', r', at', c') =
      let same : r' ≡ r = some_inj (sym at' ∙ at) in cc (Chain-unique r l m c (rw same at c'))

  -- A node on the way has a chain of its own, no longer than what is left of the way.
  pub Chain-mem :
      (p a : Ptr) (l : List Ptr)
      → Chain up p l
      → elem a l ≡ true
      → (m : List Ptr) × Chain up a m × (length m ≤ length l)
  Chain-mem p a [] c h = cc
  Chain-mem p a (x ∷ l) (e, ne, r, at, c) h = elim (Bool-cases (x == a)) [
    | inl hit ↦
        let here : p ≡ a = ground arith in
        (a ∷ l, (refl, rw here at ne, r, rw here at at, c), omega arith)
    | inr miss ↦ let (m, d, short) = Chain-mem r a l c (rw miss at h) in (m, d, omega arith)
  ]

  -- No node is its own proper ancestor.
  pub Chain-acyclic : (p x : Ptr) (l : List Ptr) → Chain up p (x ∷ l) → elem p l ≡ false
  Chain-acyclic p x l c = elim (Bool-cases (elem p l)) [
    | inr no_loop ↦ no_loop
    | inl loop ↦
        let (m, d, short) = Chain-mem c.2 p l c.4 loop in
        absurd (omega (arith, ap length (Chain-unique p (x ∷ l) m c d)))
  ]

-- The proper ancestors of the first node of a chain, META_FS included.
abbrev pub ancestors : List Ptr → List Ptr
ancestors [] = []
ancestors (p ∷ l) = l ++ meta_fs ∷ []

pub node_of_parent :
    (s : State) (p r : Ptr)
    → parent_of s p ≡ some r
    → (f : Fsnode) × (s.fsnodes p ≡ some f) × (f.fs_parent ≡ r)
node_of_parent s p r h = ground arith
