-- ===== src/Tag.antt =====
-- cnode.c, the tags: one file system's view of an inode, in the hash table of its host cnode.
use cinquain_meta.Common.{ℕ, Bool, none, some, ◌==◌, ◌&&◌, ◌||◌, if◌then◌else◌, inc32, dec32}
use cinquain_meta.Containers.{Ptr, null, by_ptr, Library}
use cinquain_meta.Memory.{Tag, meta_fs}
use cinquain_meta.Memory.Actions.{
  M, pure, skip, ◌>>=◌, ◌>>◌, tag_at, store_tag, set_tag, cnode_at, set_cnode, inode_at, free_inode,
  set_inode, malloc,
}
use cinquain_meta.Vfs.{ihold, iput}

-- enum cinq_visibility
abbrev pub cinq_visible : ℕ
cinq_visible = 0

abbrev pub cinq_invisible : ℕ
cinq_invisible = 1

unfoldable pub i_tag : Ptr → M Ptr
i_tag inode = do i ← inode_at inode; pure i.i_ino

unfoldable pub i_fs : Ptr → M Ptr
unfolding i_tag
i_fs inode = do t ← tag_at (← i_tag inode); pure t.t_fs

unfoldable pub i_cnode : Ptr → M Ptr
unfolding i_tag
i_cnode inode = do t ← tag_at (← i_tag inode); pure t.t_host

unfoldable pub inode_meta_root : Ptr → M Bool
unfolding i_fs
inode_meta_root inode = do fs ← i_fs inode; pure (fs == meta_fs)

unfoldable pub negative : Tag → Bool
negative t = t.t_inode == null

unfoldable pub impenetrable : Tag → Ptr → Bool
unfolding negative
impenetrable t req_fs =
    (negative t && (t.t_fs == req_fs)) || (negative t && (t.t_mode == cinq_visible))

-- What tag_new_with_ leaves in a new tag.
abbrev pub blank_tag : Ptr → Ptr → ℕ → Tag
blank_tag fs inode mode = record {
  t_fs = fs;
  t_host = null;
  t_inode = inode;
  t_nchild = 0;
  t_count = 0;
  t_mode = mode;
  t_symname = none;
}

unfoldable pub tag_new_with : Ptr → Ptr → ℕ → M Ptr
unfolding ihold
tag_new_with fs inode mode = do
  tag ← malloc
  if tag == null then pure null else do
    store_tag tag (some (blank_tag fs inode mode))
    (if inode == null then skip else ihold inode)
    pure tag

unfoldable pub tag_new : Ptr → Ptr → ℕ → M Ptr
unfolding tag_new_with
tag_new fs inode mode = do
  tag ← tag_new_with fs inode mode
  set_inode inode (λ i. record i { i_ino = tag })
  pure tag

unfoldable pub inc_nchild : Ptr → M (Unit {0})
inc_nchild tag = set_tag tag (λ t. record t { t_nchild = inc32 t.t_nchild })

unfoldable pub drop_nchild : Ptr → M (Unit {0})
drop_nchild tag = set_tag tag (λ t. record t { t_nchild = dec32 t.t_nchild })

unfoldable pub tag_drop_inode : Ptr → M (Unit {0})
unfolding iput
tag_drop_inode tag = do
  t ← tag_at tag
  if t.t_inode == null
      then skip
      else do iput t.t_inode; set_tag tag (λ v. record v { t_inode = null })

unfoldable pub tag_reset_inode : Ptr → Ptr → M (Unit {0})
unfolding tag_drop_inode ihold
tag_reset_inode tag inode = do
  tag_drop_inode tag
  ihold inode
  set_tag tag (λ t. record t { t_inode = inode })

module _ ⦃u : Library⦄ where
  unfoldable pub cnode_find_tag : Ptr → Ptr → M Ptr
  cnode_find_tag cnode fs = do c ← cnode_at cnode; pure (u.find (by_ptr fs) c.ci_tags)

  unfoldable pub cnode_add_tag : Ptr → Ptr → M (Unit {0})
  cnode_add_tag cnode tag = do
    t ← tag_at tag
    set_cnode cnode (λ c. record c { ci_tags = u.add (by_ptr t.t_fs) tag c.ci_tags })
    set_tag tag (λ v. record v { t_host = cnode })

  unfoldable pub cnode_rm_tag : Ptr → Ptr → M (Unit {0})
  cnode_rm_tag cnode tag = set_cnode cnode (λ c. record c { ci_tags = u.delete tag c.ci_tags })

  unfoldable pub tag_evict : Ptr → M (Unit {0})
  unfolding cnode_rm_tag
  tag_evict tag = do
    t ← tag_at tag
    (if t.t_inode == null then skip else free_inode t.t_inode)
    cnode_rm_tag t.t_host tag
    store_tag tag none
