-- ===== src/Fsnode/New.antt =====
-- fsnode_new: a name stands for one file system.
use cinquain_meta.Common.{
  ℕ, zero, suc, ◌+◌, ◌-◌, ◌≤◌, ◌<◌, ◌≡◌, ◌≢◌, refl, ap, ◌∙◌, ◌⊎◌, inl, inr, true, false, none, some,
  List, [], ◌∷◌, ◌==◌, if◌then◌else◌, arith, length, Bool-cases, str_eq, ==_refl,
}
use cinquain_meta.Containers.{Ptr, null, by_ptr, by_str, Library, IsTable}
use cinquain_meta.Containers.Laws.{find-add, IsTable-add}
use cinquain_meta.Memory.{State, meta_fs}
use cinquain_meta.Memory.Actions.{ret, update}
use cinquain_meta.Fsnode.{take, fsnode_new, cfs_find, cfs_add}
use cinquain_meta.Fsnode.Chain.{parent_of, node_of_parent}

take_all : (n : ℕ) (name : List ℕ) → length name ≤ n → take n name ≡ name
take_all zero [] h = refl
take_all zero (c ∷ s) h = absurd (omega arith)
take_all (suc n) [] h = refl
take_all (suc n) (c ∷ s) h = ap (λ (rest : List ℕ). c ∷ rest) (take_all n s (omega arith))

module _ ⦃u : Library⦄ where
  -- what fsnode_new leaves: the parents, and the table
  pub record NewStep (s s' : State) (parent : Ptr) (name : List ℕ) : Type 0 where
    pub parents : (p : Ptr) → parent_of s' p ≡ (if s.brk == p then some parent else parent_of s p)
    pub table : s'.cfs_table ≡ u.add (by_str (take 255 name)) s.brk s.cfs_table

  top-run :
      (s : State) (parent : Ptr) (name : List ℕ)
      → u.find (by_str name) s.cfs_table ≡ null
      → parent ≡ meta_fs
      → s.fsnodes s.brk ≡ none
      → 0 < s.avail
      → 0 < s.brk
      → (s' : State) × (fsnode_new parent name s ≡ ret s.brk s') × NewStep s s' parent name
  unfolding fsnode_new cfs_find cfs_add
  top-run s parent name absent top free room pos =
      let given : (s.avail == 0) ≡ false = ground arith in
      let node_ne : (s.brk == null) ≡ false = ground arith in
      let at_top : (parent == meta_fs) ≡ true = ground arith in
      (
        record s {
          fsnodes = update s.fsnodes s.brk (
              some (record {
                fs_id = s.brk;
                fs_name = take 255 name;
                fs_parent = parent;
                fs_root = null;
                fs_children = [];
              }));
          cfs_table = u.add (by_str (take 255 name)) s.brk s.cfs_table;
          brk = s.brk + 1;
          avail = s.avail - 1;
        },
        rw (given, node_ne, absent, ==_refl s.brk, at_top),
        record { parents = λ p. ground arith; table = refl },
      )

  below-run :
      (s : State) (parent : Ptr) (name : List ℕ)
      → u.find (by_str name) s.cfs_table ≡ null
      → (parent ≢ meta_fs) × (r : Ptr) × (parent_of s parent ≡ some r)
      → s.fsnodes s.brk ≡ none
      → 0 < s.avail
      → 0 < s.brk
      → (s' : State) × (fsnode_new parent name s ≡ ret s.brk s') × NewStep s s' parent name
  unfolding fsnode_new cfs_find cfs_add
  below-run s parent name absent (low, r, at) free room pos =
      let (f, live, up) = node_of_parent s parent r at in
      let given : (s.avail == 0) ≡ false = ground arith in
      let node_ne : (s.brk == null) ≡ false = ground arith in
      let not_top : (parent == meta_fs) ≡ false = ground arith in
      let apart : (s.brk == parent) ≡ false = ground arith in
      (
        record s {
          fsnodes =
              update
                (update s.fsnodes s.brk (
                  some (record {
                    fs_id = s.brk;
                    fs_name = take 255 name;
                    fs_parent = parent;
                    fs_root = null;
                    fs_children = [];
                  })))
                parent (some (record f { fs_children = u.add (by_ptr s.brk) s.brk f.fs_children }));
          cfs_table = u.add (by_str (take 255 name)) s.brk s.cfs_table;
          brk = s.brk + 1;
          avail = s.avail - 1;
        },
        rw (given, node_ne, absent, ==_refl s.brk, not_top, ==_refl s.brk, apart, live),
        record { parents = λ p. ground arith; table = refl },
      )

  pub fsnode_new-run :
      (s : State) (parent : Ptr) (name : List ℕ)
      → u.find (by_str name) s.cfs_table ≡ null
      → (parent ≡ meta_fs) ⊎ ((r : Ptr) × (parent_of s parent ≡ some r))
      → s.fsnodes s.brk ≡ none
      → 0 < s.avail
      → 0 < s.brk
      → (s' : State) × (fsnode_new parent name s ≡ ret s.brk s') × NewStep s s' parent name
  fsnode_new-run s parent name absent (inl top) free room pos =
      top-run s parent name absent top free room pos
  fsnode_new-run s parent name absent (inr at) free room pos =
      elim (Bool-cases (parent == meta_fs)) [
        | inl top ↦ top-run s parent name absent (ground arith) free room pos
        | inr low ↦ below-run s parent name absent (ground arith, at.0, at.1) free room pos
      ]

  pub fsnode_new-cfs_find :
      (s : State) (parent : Ptr) (name : List ℕ)
      → length name ≤ 255
      → u.find (by_str name) s.cfs_table ≡ null
      → IsTable s.cfs_table
      → (parent ≡ meta_fs) ⊎ ((r : Ptr) × (parent_of s parent ≡ some r))
      → s.fsnodes s.brk ≡ none
      → 0 < s.avail
      → 0 < s.brk
      → (s' : State) × (fsnode_new parent name s ≡ ret s.brk s')
        × ((p : Ptr) → parent_of s' p ≡ (if s.brk == p then some parent else parent_of s p))
        × ((other : List ℕ)
            → u.find (by_str other) s'.cfs_table
              ≡ (if str_eq name other then s.brk else u.find (by_str other) s.cfs_table))
        × IsTable s'.cfs_table
  fsnode_new-cfs_find s parent name short absent is below free room pos =
      let (s', ran, g) = fsnode_new-run s parent name absent below free room pos in
      let table : s'.cfs_table ≡ u.add (by_str name) s.brk s.cfs_table =
        g.table
        ∙ ap (λ (n : List ℕ). u.add (by_str n) s.brk s.cfs_table) (take_all 255 name short) in
      (
        s',
        ran,
        g.parents,
        λ other.
            rw table
              (find-add (by_str name) (by_str other) s.brk s.cfs_table is absent (omega arith)),
        rw table (IsTable-add (by_str name) s.brk s.cfs_table is absent (omega arith)),
      )
