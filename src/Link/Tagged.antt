-- ===== src/Link/Tagged.antt =====
-- cinq_tag_with_, which cinq_link and cinq_rename call, at a name that the directory has.
use cinquain_meta.Common.{
  ℕ, suc, ◌<◌, ◌≡◌, ◌≢◌, refl, ◌∙◌, ap, ◌⊎◌, inl, inr, false, some, ◌==◌, arith,
}
use cinquain_meta.Containers.{Ptr, null, by_ptr, by_str, Library, IsTable}
use cinquain_meta.Containers.Laws.{find-add, key_ne, key_eq_refl}
use cinquain_meta.Errno.{success}
use cinquain_meta.Memory.{State, Inode, Tag, Cnode, Fsnode, meta_fs}
use cinquain_meta.Memory.Actions.{ret, left_by}
use cinquain_meta.Tag.{
  cinq_visible, blank_tag, i_cnode, i_tag, cnode_find_tag, cnode_add_tag, tag_new_with,
  tag_reset_inode, tag_drop_inode,
}
use cinquain_meta.Vfs.{ihold, iput}
use cinquain_meta.Cnode.{cnode_find_child, cnode_lookup_inode}
use cinquain_meta.Cnode.Nearest.{lookup-own}
use cinquain_meta.Create.Request.{Request}
use cinquain_meta.Link.{tag_child_with, cinq_tag_with}

module _ ⦃u : Library⦄ (s : State) (c fs inode : Ptr) (cn : Cnode) (i : Inode)
    (at : s.cnodes c ≡ some cn) (at_i : s.inodes inode ≡ some i) (ne : inode ≢ null) where
  -- The cnode has a tag of the file system with the inode, and the tags of others are as before.
  pub record Tagged (s' : State) : Type 0 where
    pub after : Cnode
    pub tag : Tag
    pub cnodes : s'.cnodes c ≡ some after
    pub tags : s'.tags (u.find (by_ptr fs) after.ci_tags) ≡ some tag
    pub found_tag : u.find (by_ptr fs) after.ci_tags ≢ null
    pub of_fs : tag.t_fs ≡ fs
    pub with_inode : tag.t_inode ≡ inode
    others :
        (other : Ptr)
        → fs ≢ other
        → u.find (by_ptr other) after.ci_tags ≡ u.find (by_ptr other) cn.ci_tags
    fsnodes : (q : Ptr) → s'.fsnodes q ≡ s.fsnodes q
    pub new_or_old :
        (u.find (by_ptr fs) after.ci_tags ≡ s.brk)
        ⊎ (u.find (by_ptr fs) after.ci_tags ≡ u.find (by_ptr fs) cn.ci_tags)

  new_tag :
      u.find (by_ptr fs) cn.ci_tags ≡ null
      → IsTable cn.ci_tags
      → 0 < s.avail
      → 0 < s.brk
      → (s' : State) × (tag_child_with c fs inode s ≡ ret success s') × Tagged s'
  unfolding tag_child_with cnode_find_tag tag_new_with cnode_add_tag ihold
  new_tag absent is room low =
      let finds = λ (other : Ptr).
        find-add (by_ptr fs) (by_ptr other) s.brk cn.ci_tags is absent (omega arith) in
      let own : u.find (by_ptr fs) (u.add (by_ptr fs) s.brk cn.ci_tags) ≡ s.brk =
        finds fs ∙ rw (key_eq_refl (by_ptr fs)) refl in
      (
        left_by s (tag_child_with c fs inode s),
        ground arith,
        record {
          after = record cn { ci_tags = u.add (by_ptr fs) s.brk cn.ci_tags };
          tag = record (blank_tag fs inode cinq_visible) { t_host = c };
          cnodes = ground arith;
          tags = rw own (ground arith);
          found_tag = rw own (omega arith);
          of_fs = refl;
          with_inode = refl;
          others = λ other apart. finds other ∙ rw (key_ne fs other apart) refl;
          fsnodes = λ q. ground arith;
          new_or_old = inl own;
        },
      )

  kept_tag :
      (s' : State) (t : Tag)
      → u.find (by_ptr fs) cn.ci_tags ≢ null
      → t.t_fs ≡ fs
      → s'.cnodes c ≡ some cn
      → s'.tags (u.find (by_ptr fs) cn.ci_tags) ≡ some (record t { t_inode = inode })
      → ((q : Ptr) → s'.fsnodes q ≡ s.fsnodes q)
      → Tagged s'
  kept_tag s' t there mine cnodes tags fsnodes = record {
    after = cn;
    tag = record t { t_inode = inode };
    cnodes = cnodes;
    tags = tags;
    found_tag = there;
    of_fs = mine;
    with_inode = refl;
    others = λ other apart. refl;
    fsnodes = fsnodes;
    new_or_old = inr refl;
  }

  own_tag :
      (t : Tag)
      → u.find (by_ptr fs) cn.ci_tags ≢ null
      → s.tags (u.find (by_ptr fs) cn.ci_tags) ≡ some t
      → t.t_fs ≡ fs
      → (t.t_inode ≡ null) ⊎ ((j : Inode) × (s.inodes t.t_inode ≡ some j))
      → (s' : State) × (tag_child_with c fs inode s ≡ ret success s') × Tagged s'
  unfolding tag_child_with cnode_find_tag tag_reset_inode tag_drop_inode ihold iput
  own_tag t there at_t mine (inl negative) = (
    left_by s (tag_child_with c fs inode s),
    ground arith,
    kept_tag (left_by s (tag_child_with c fs inode s)) t there mine (ground arith) (ground arith)
        (λ q. ground arith),
  )
  own_tag t there at_t mine (inr (j, at_j)) = (
    left_by s (tag_child_with c fs inode s),
    ground arith,
    kept_tag (left_by s (tag_child_with c fs inode s)) t there mine (ground arith) (ground arith)
        (λ q. ground arith),
  )

module _ ⦃u : Library⦄ where
  -- The cnode has no tag of the file system, and one can be allocated; or it has one, with an inode or
  -- without.
  abbrev pub CanTag : State → Cnode → Ptr → Type 0
  CanTag s cn fs =
      ((u.find (by_ptr fs) cn.ci_tags ≡ null) × IsTable cn.ci_tags × (0 < s.avail) × (0 < s.brk))
      ⊎ ((u.find (by_ptr fs) cn.ci_tags ≢ null)
          × (t : Tag) × (s.tags (u.find (by_ptr fs) cn.ci_tags) ≡ some t)
          × (t.t_fs ≡ fs)
          × ((t.t_inode ≡ null) ⊎ ((j : Inode) × (s.inodes t.t_inode ≡ some j))))

  pub tag_child_with-Tagged :
      (s : State) (c fs inode : Ptr) (cn : Cnode) (i : Inode) (at : s.cnodes c ≡ some cn)
      (at_i : s.inodes inode ≡ some i) (ne : inode ≢ null)
      → CanTag s cn fs
      → (s' : State) × (tag_child_with c fs inode s ≡ ret success s')
        × Tagged s c fs inode cn i at at_i ne s'
  tag_child_with-Tagged s c fs inode cn i at at_i ne (inl (absent, is, room, low)) =
      new_tag s c fs inode cn i at at_i ne absent is room low
  tag_child_with-Tagged s c fs inode cn i at at_i ne (inr (there, t, at_t, mine, old)) =
      own_tag s c fs inode cn i at at_i ne t there at_t mine old

  -- cinq_tag_with_ of a name that the directory has succeeds with no fault, whether the file system
  -- that makes the request has a tag there, with an inode or negative, or none, and one can be
  -- allocated: from then on it sees the given inode at the name's cnode, and the cnode's tags of all
  -- other file systems are as before.
  cinq_tag_with-cnode_lookup_inode :
      (s : State) (rounds : ℕ) (dir dentry inode : Ptr) (q : Request s dir dentry) (child : Ptr)
      (cn : Cnode) (i : Inode) (f : Fsnode)
      → u.find (by_str q.entry.d_name.name) q.cnode.ci_children ≡ child
      → child ≢ null
      → s.cnodes child ≡ some cn
      → s.inodes inode ≡ some i
      → inode ≢ null
      → CanTag s cn q.entry.d_fsdata
      → s.fsnodes q.entry.d_fsdata ≡ some f
      → q.entry.d_fsdata ≢ meta_fs
      → (s' : State) × (after : Cnode) × (cinq_tag_with dir dentry inode s ≡ ret success s')
        × (cnode_lookup_inode (suc rounds) child q.entry.d_fsdata s' ≡ ret inode s')
        × (s'.cnodes child ≡ some after)
        × ((other : Ptr)
            → q.entry.d_fsdata ≢ other
            → u.find (by_ptr other) after.ci_tags ≡ u.find (by_ptr other) cn.ci_tags)
  unfolding cinq_tag_with i_cnode i_tag cnode_find_child
  cinq_tag_with-cnode_lookup_inode s rounds dir dentry inode q child cn i f by_name child_ne at at_i
        ne can at_fs low =
      let (s', ran, g) = tag_child_with-Tagged s child q.entry.d_fsdata inode cn i at at_i ne can in
      let named : (child == null) ≡ false = ground arith in
      let looked =
        lookup-own s' rounds child q.entry.d_fsdata g.after f g.tag g.cnodes
          (g.fsnodes q.entry.d_fsdata ∙ at_fs) g.tags g.of_fs g.found_tag low in
      (
        s',
        g.after,
        rw (q.at_dentry, q.at_dir, q.at_tag, q.at_cnode, by_name, named) ran,
        looked ∙ ap (λ p. ret p s') g.with_inode,
        g.cnodes,
        g.others,
      )
