-- ===== src/Dir.antt =====
-- file.c: open directories. The cursor, filp->private_data, is a tag in the root of all file systems,
-- and a cnode elsewhere; the elements after it are those behind it in the application order of the
-- hash table. An element that is no longer in the table has no successor: a fault.
--
-- `fuel` bounds the rounds of each lookup.
pub mod Seek
pub mod Open
use cinquain_meta.Common.{
  ℕ, zero, suc, ◌+◌, ◌-◌, ◌%◌, ◌^◌, Bool, true, false, Option, none, some, List, [], ◌∷◌, ◌==◌, ltb,
  leb, if◌then◌else◌, inc32, dec32,
}
use cinquain_meta.Containers.{Ptr, null, Table, elements, Library}
use cinquain_meta.Errno.{Errno, einval, Result, ok, err}
use cinquain_meta.File.{File, is_negative}
use cinquain_meta.Memory.{meta_fs}
use cinquain_meta.Memory.Actions.{
  M, fault, pure, skip, ◌>>=◌, ◌>>◌, tag_at, set_tag, cnode_at, set_cnode, dentry_at,
}
use cinquain_meta.Tag.{i_cnode, inode_meta_root}
use cinquain_meta.Cnode.{cnode_lookup_inode}

-- the element that the table's `head` points to
abbrev pub first : List Ptr → Ptr
first [] = null
first (p ∷ l) = p

-- if (cur) atomic_inc(&cur->t_count); and the three others like it
abbrev pub hold_tag : Ptr → M (Unit {0})
hold_tag p = if p == null then skip else set_tag p (λ t. record t { t_count = inc32 t.t_count })

abbrev pub drop_tag : Ptr → M (Unit {0})
drop_tag p = if p == null then skip else set_tag p (λ t. record t { t_count = dec32 t.t_count })

abbrev pub hold_cnode : Ptr → M (Unit {0})
hold_cnode p =
    if p == null then skip else set_cnode p (λ c. record c { ci_count = inc32 c.ci_count })

abbrev pub drop_cnode : Ptr → M (Unit {0})
drop_cnode p =
    if p == null then skip else set_cnode p (λ c. record c { ci_count = dec32 c.ci_count })

unfoldable pub cinq_dir_open : File → M (Result File)
unfolding i_cnode inode_meta_root
cinq_dir_open filp = do
  d ← dentry_at filp.f_dentry
  if d.d_inode == null then pure (err einval) else do
    cnode ← i_cnode d.d_inode
    meta ← inode_meta_root d.d_inode
    c ← cnode_at cnode
    let cur = if meta then first (elements c.ci_tags) else first (elements c.ci_children)
    if meta then hold_tag cur else hold_cnode cur
    pure (ok (record filp { private_data = cur }))

unfoldable pub cinq_dir_release : File → M (Result File)
unfolding i_cnode inode_meta_root
cinq_dir_release filp = do
  d ← dentry_at filp.f_dentry
  if d.d_inode == null then pure (err einval) else do
    i_cnode d.d_inode
    meta ← inode_meta_root d.d_inode
    if meta then drop_tag filp.private_data else drop_cnode filp.private_data
    pure (ok filp)

-- while (n && cur) { if (cur->t_fs != META_FS) n--; cur = cur->hh.next; }
unfoldable pub skip_tags : ℕ → List Ptr → M (List Ptr)
skip_tags zero l = pure l
skip_tags (suc n) [] = pure []
skip_tags (suc n) (cur ∷ l) = do
  t ← tag_at cur
  if t.t_fs == meta_fs then skip_tags (suc n) l else skip_tags n l

module _ ⦃u : Library⦄ where
  -- while (n && cur) { target = cnode_lookup_inode(cur, fs); if (target) --n; cur = next; }
  unfoldable pub skip_children : ℕ → Ptr → ℕ → List Ptr → M (List Ptr)
  skip_children fuel fs zero l = pure l
  skip_children fuel fs (suc n) [] = pure []
  skip_children fuel fs (suc n) (cur ∷ l) = do
    target ← cnode_lookup_inode fuel cur fs
    if target == null then skip_children fuel fs (suc n) l else skip_children fuel fs n l

  -- The cursor behind the n-th entry. Behind the last it is the first element again, and without a
  -- test for NULL its counter is incremented.
  unfoldable pub seek_cursor : ℕ → File → Ptr → Bool → ℕ → M Ptr
  unfolding skip_tags skip_children
  seek_cursor fuel filp cnode meta n = do
    c ← cnode_at cnode
    d ← dentry_at filp.f_dentry
    if meta
        then (do
          drop_tag filp.private_data
          rest ← skip_tags n (elements c.ci_tags)
          let cur = if first rest == null then first (elements c.ci_tags) else first rest
          set_tag cur (λ t. record t { t_count = inc32 t.t_count })
          pure cur)
        else (do
          drop_cnode filp.private_data
          rest ← skip_children fuel d.d_fsdata n (elements c.ci_children)
          let cur = if first rest == null then first (elements c.ci_children) else first rest
          set_cnode cur (λ v. record v { ci_count = inc32 v.ci_count })
          pure cur)

  -- the switch over `origin`; the sum of two loff_t wraps at 64 bits
  unfoldable pub dir_target : File → ℕ → ℕ → Option ℕ
  dir_target filp offset origin =
      let to = if origin == 1 then (offset + filp.f_pos) % 2 ^ 64 else offset in
      if ltb 1 origin then none else if is_negative to then none else some to

  unfoldable pub cinq_dir_lseek : ℕ → File → ℕ → ℕ → M (Result File)
  unfolding i_cnode inode_meta_root seek_cursor dir_target
  cinq_dir_lseek fuel filp offset origin = do
    d ← dentry_at filp.f_dentry
    cnode ← i_cnode d.d_inode
    elim (dir_target filp offset origin) [
      | none ↦ pure (err einval)
      | some to ↦
          if to == filp.f_pos
          then pure (ok filp)
          else if ltb to 2
          then pure (ok (record filp { f_pos = to }))
          else do
            meta ← inode_meta_root d.d_inode
            cur ← seek_cursor fuel filp cnode meta (to - 2)
            pure (ok (record filp { f_pos = to; private_data = cur }))
    ]
