-- ===== src/Fsnode.antt =====
-- fsnode.c and the table of file systems in cinq_meta.h: the tree of file system nodes.
--
-- `fuel` bounds the rounds of the walk in fsnode_ancestor_ and the recursions over directory
-- entries and children. The rounds of a loop over a hash table are those over its elements when
-- it starts, since the loop remembers the next element before the body runs.
pub mod Chain
pub mod Ancestor
pub mod Move
pub mod Tree
pub mod Reached
pub mod New
use cinquain_meta.Common.{
  ℕ, zero, suc, Bool, true, false, Option, none, some, List, [], ◌∷◌, ◌==◌, if◌then◌else◌,
}
use cinquain_meta.Containers.{Ptr, null, Key, by_ptr, by_str, Table, elements, Library}
use cinquain_meta.Memory.{State, Fsnode, meta_fs}
use cinquain_meta.Memory.Actions.{
  M, fault, diverges, pure, skip, ◌>>=◌, ◌>>◌, gets, fsnode_at, store_fsnode, set_fsnode, malloc,
  for_each,
}
use cinquain_meta.Dcache.{d_genocide}

abbrev pub max_name_len : ℕ
max_name_len = 255

-- strncpy(dst, src, n)
abbrev pub take {ℓ} : {A : Type ℓ} → ℕ → List A → List A
take zero xs = []
take (suc n) [] = []
take (suc n) (x ∷ xs) = x ∷ take n xs

abbrev set_cfs : (Table → Table) → M (Unit {0})
set_cfs f s = skip (record s { cfs_table = f s.cfs_table })

unfoldable pub fsnode_ancestor : ℕ → Ptr → Ptr → M Bool
fsnode_ancestor zero ancestor descendant = λ _. diverges
fsnode_ancestor (suc fuel) ancestor descendant = if descendant == meta_fs then pure false else do
  d ← fsnode_at descendant
  if d.fs_parent == ancestor then pure true else fsnode_ancestor fuel ancestor d.fs_parent

module _ ⦃u : Library⦄ where
  unfoldable pub cfs_find : List ℕ → M Ptr
  cfs_find name = gets (λ s. u.find (by_str name) s.cfs_table)

  cfs_add : Ptr → M (Unit {0})
  cfs_add fs = do f ← fsnode_at fs; set_cfs (u.add (by_str f.fs_name) fs)

  cfs_rm : Ptr → M (Unit {0})
  cfs_rm fs = set_cfs (u.delete fs)

  -- HASH_ADD_BY_PTR(fs_child, parent->fs_children, fs_id, child)
  abbrev pub add_child : Ptr → Ptr → M (Unit {0})
  add_child parent child = do
    c ← fsnode_at child
    set_fsnode parent (λ f. record f { fs_children = u.add (by_ptr c.fs_id) child f.fs_children })

  -- HASH_DELETE(fs_child, parent->fs_children, child)
  abbrev pub drop_child : Ptr → Ptr → M (Unit {0})
  drop_child parent child =
      set_fsnode parent (λ f. record f { fs_children = u.delete child f.fs_children })

  -- What malloc returns is written to without a test for NULL.
  unfoldable pub fsnode_new : Ptr → List ℕ → M Ptr
  unfolding cfs_find cfs_add
  fsnode_new parent name = do
    fsnode ← malloc
    if fsnode == null then (λ _. fault) else do
      store_fsnode fsnode (
          some (record {
            fs_id = fsnode;
            fs_name = take max_name_len name;
            fs_parent = parent;
            fs_root = null;
            fs_children = [];
          }))
      dup ← cfs_find name
      if dup == null
          then (do
            cfs_add fsnode
            (if parent == meta_fs then skip else add_child parent fsnode)
            pure fsnode)
          else (do store_fsnode fsnode none; pure null)

  unfoldable pub fsnode_evict : ℕ → Ptr → M (Unit {0})
  unfolding cfs_rm
  fsnode_evict fuel fsnode = do
    f ← fsnode_at fsnode
    d_genocide fuel f.fs_root
    g ← fsnode_at fsnode
    elim g.fs_children [
      | [] ↦ do
        cfs_rm fsnode
        (if g.fs_parent == meta_fs then skip else drop_child g.fs_parent fsnode)
        store_fsnode fsnode none
      | _ ∷ _ ↦ skip
    ]

  -- the body of the loop over all file systems, in fsnode_evict_all(META_FS)
  abbrev if_root : (Ptr → M (Unit {0})) → Ptr → M (Unit {0})
  if_root body p = do f ← fsnode_at p; if f.fs_parent == meta_fs then body p else skip

  unfoldable pub fsnode_evict_all : ℕ → Ptr → M (Unit {0})
  unfolding for_each
  fsnode_evict_all zero fsnode = λ _. diverges
  fsnode_evict_all (suc fuel) fsnode =
      if fsnode == meta_fs
      then (do t ← gets (λ s. s.cfs_table); for_each (if_root (fsnode_evict_all fuel)) (elements t))
      else (do
        f ← fsnode_at fsnode
        for_each (fsnode_evict_all fuel) (elements f.fs_children)
        fsnode_evict fuel fsnode)

  unfoldable pub fsnode_move : ℕ → Ptr → Ptr → M (Unit {0})
  fsnode_move fuel child new_parent = do
    cyclic ← fsnode_ancestor fuel child new_parent
    if cyclic then skip else do
      c ← fsnode_at child
      (if c.fs_parent == meta_fs then skip else drop_child c.fs_parent child)
      set_fsnode child (λ f. record f { fs_parent = new_parent })
      if new_parent == meta_fs then skip else add_child new_parent child

  unfoldable pub fsnode_bridge : ℕ → Ptr → M (Unit {0})
  unfolding fsnode_move fsnode_evict
  fsnode_bridge fuel out = do
    o ← fsnode_at out
    elim o.fs_children [ [] ↦ skip | (_, child) ∷ _ ↦ fsnode_move fuel child o.fs_parent ]
    fsnode_evict fuel out
