-- ===== src/Cnode.antt =====
-- cnode.c, the cnodes: the names below a directory, shared by all file systems, and the inode that
-- a file system sees at one.
--
-- `fuel` bounds the rounds of foreach_ancestor_tag; a chain of parents shorter than it suffices.
pub mod Nearest
use cinquain_meta.Common.{
  ℕ, zero, suc, Bool, true, false, Option, none, some, List, [], ◌∷◌, ◌==◌, ◌&&◌, ◌||◌, not,
  if◌then◌else◌, ltb, length,
}
use cinquain_meta.Fsnode.{max_name_len}
use cinquain_meta.Containers.{Ptr, null, by_str, Table, elements, Library}
use cinquain_meta.Memory.{Cnode, meta_fs}
use cinquain_meta.Memory.Actions.{
  M, fault, diverges, pure, skip, ◌>>=◌, ◌>>◌, tag_at, cnode_at, store_cnode, set_cnode, fsnode_at,
  malloc, for_each,
}
use cinquain_meta.Tag.{impenetrable, cnode_find_tag, tag_evict}

-- What cnode_new_ leaves in a new cnode.
abbrev pub blank_cnode : Ptr → List ℕ → Cnode
blank_cnode p name = record {
  ci_id = p;
  ci_name = name;
  ci_tags = [];
  ci_parent = null;
  ci_children = [];
  ci_count = 0;
}

-- strcpy into ci_name, which has MAX_NAME_LEN + 1 bytes: a longer name is a fault.
unfoldable pub cnode_new : List ℕ → M Ptr
cnode_new name = do
  cnode ← malloc
  if cnode == null
      then pure null
      else if ltb max_name_len (length name)
      then (λ _. fault)
      else do store_cnode cnode (some (blank_cnode cnode name)); pure cnode

is_empty : Table → Bool
is_empty [] = true
is_empty (_ ∷ _) = false

or_null : Option Ptr → Ptr
or_null none = null
or_null (some p) = p

-- if (tag) return tag->t_inode;
abbrev pub return_inode : Ptr → M (Option Ptr)
return_inode tag = if tag == null then pure none else do t ← tag_at tag; pure (some t.t_inode)

module _ ⦃u : Library⦄ where
  unfoldable pub cnode_find_child : Ptr → List ℕ → M Ptr
  cnode_find_child parent name = do c ← cnode_at parent; pure (u.find (by_str name) c.ci_children)

  unfoldable pub cnode_add_child : Ptr → Ptr → M (Unit {0})
  cnode_add_child parent child = do
    c ← cnode_at child
    set_cnode parent (λ p. record p { ci_children = u.add (by_str c.ci_name) child p.ci_children })
    set_cnode child (λ v. record v { ci_parent = parent })

  unfoldable pub cnode_rm_child : Ptr → Ptr → M (Unit {0})
  cnode_rm_child parent child = do
    set_cnode parent (λ p. record p { ci_children = u.delete child p.ci_children })
    set_cnode child (λ v. record v { ci_parent = null })

  -- The loop of foreach_ancestor_tag(fs, tag, cnode); `some` from the body leaves it.
  unfoldable pub foreach_ancestor_tag :
      {A : Type 0} → ℕ → Ptr → Ptr → Ptr → (Ptr → M (Option A)) → M (Option A)
  unfolding impenetrable cnode_find_tag
  foreach_ancestor_tag zero cnode fs tag body = λ _. diverges
  foreach_ancestor_tag (suc fuel) cnode fs tag body = if fs == meta_fs then pure none else do
    stop ← (if tag == null then pure false else do t ← tag_at tag; pure (impenetrable t fs))
    if stop then pure none else do
      r ← body tag
      elim r [
        | some v ↦ pure (some v)
        | none ↦ do
          f ← fsnode_at fs
          next ← cnode_find_tag cnode f.fs_parent
          foreach_ancestor_tag fuel cnode f.fs_parent next body
      ]

  unfoldable pub cnode_lookup_inode : ℕ → Ptr → Ptr → M Ptr
  unfolding cnode_find_tag or_null
  cnode_lookup_inode fuel cnode req_fs = do
    tag ← cnode_find_tag cnode req_fs
    r ← foreach_ancestor_tag fuel cnode req_fs tag return_inode
    pure (or_null r)

  unfoldable pub cnode_evict : Ptr → M (Unit {0})
  unfolding is_empty cnode_rm_child
  cnode_evict cnode = do
    c ← cnode_at cnode
    if not (is_empty c.ci_tags) || not (is_empty c.ci_children) then skip else do
      (if (c.ci_parent == cnode) || (c.ci_parent == null)
          then skip
          else cnode_rm_child c.ci_parent cnode)
      store_cnode cnode none

  unfoldable pub cnode_evict_all : ℕ → Ptr → M (Unit {0})
  unfolding for_each cnode_evict
  cnode_evict_all zero root = λ _. diverges
  cnode_evict_all (suc fuel) root = do
    c ← cnode_at root
    for_each (cnode_evict_all fuel) (elements c.ci_children)
    d ← cnode_at root
    for_each tag_evict (elements d.ci_tags)
    cnode_evict root
