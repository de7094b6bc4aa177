-- ===== src/Link/Retag.antt =====
-- What cinq_tag_with_ leaves as it was, at a name that the directory has.
use cinquain_meta.Common.{
  ℕ, List, ◌<◌, ◌≡◌, ◌≢◌, subst, ◌⊎◌, inl, inr, false, some, ◌∙◌, ◌==◌, arith, length, ◌≤◌,
}
use cinquain_meta.Containers.{Ptr, null, by_ptr, by_str, Library, IsTable}
use cinquain_meta.Errno.{success}
use cinquain_meta.Cnode.{cnode_find_child}
use cinquain_meta.Memory.{State, Inode, Tag, Cnode}
use cinquain_meta.Memory.Actions.{ret, left_by}
use cinquain_meta.Tag.{i_cnode, i_tag}
use cinquain_meta.Create.Request.{IsFresh, Request}
use cinquain_meta.Link.{cinq_tag_with}
use cinquain_meta.Link.Place.{
  Beside, added_tag, Placed, added, added-Beside, added-Placed, place_new,
}
use cinquain_meta.Link.Tagged.{CanTag, tag_child_with-Tagged}
use cinquain_meta.Link.Kept.{retag-Beside}

module _ ⦃u : Library⦄ where
  -- The directory has no such name, which has at most MAX_NAME_LEN bytes, and a cnode and a tag can be
  -- allocated; or it has, and the file
  -- system can have a tag there.
  abbrev pub CanPlace : State → Cnode → List ℕ → Ptr → Type 0
  CanPlace s dc name fs =
      ((u.find (by_str name) dc.ci_children ≡ null)
        × IsTable dc.ci_children
        × (1 < s.avail)
        × (length name ≤ 255))
      ⊎ ((u.find (by_str name) dc.ci_children ≢ null)
          × (cn : Cnode) × (s.cnodes (u.find (by_str name) dc.ci_children) ≡ some cn)
          × CanTag s cn fs)

  pub cinq_tag_with-Placed :
      (s : State) (dir dentry inode : Ptr) (q : Request s dir dentry) (i : Inode)
      → s.inodes inode ≡ some i
      → inode ≢ null
      → IsFresh s
      → CanPlace s q.cnode q.entry.d_name.name q.entry.d_fsdata
      → (s' : State) × (child : Ptr) × (old : Ptr) × (cinq_tag_with dir dentry inode s
          ≡ ret success s')
        × (placed : Placed s' q.tag.t_host q.entry.d_name.name q.entry.d_fsdata inode child)
        × Beside s s' child old
        × ((p : Ptr) (v : Cnode)
            → s.cnodes p ≡ some v
            → p ≢ u.find (by_str q.entry.d_name.name) q.cnode.ci_children
            → p ≢ child)
        × ((p : Ptr)
            → ((cn : Cnode)
                → u.find (by_str q.entry.d_name.name) q.cnode.ci_children ≢ null
                → s.cnodes (u.find (by_str q.entry.d_name.name) q.cnode.ci_children) ≡ some cn
                → p ≢ u.find (by_ptr q.entry.d_fsdata) cn.ci_tags)
            → p ≢ null
            → p ≢ old)
        × ((p : Ptr) (t : Tag)
            → s.tags p ≡ some t
            → p ≢ old
            → p ≢ u.find (by_ptr q.entry.d_fsdata) placed.cnode.ci_tags)
  unfolding cinq_tag_with i_cnode i_tag cnode_find_child
  cinq_tag_with-Placed s dir dentry inode q i at_i ne fresh (inl (absent, is, room, short)) = (
    added s inode q.tag.t_host q.entry.d_name.name q.entry.d_fsdata i q.cnode,
    s.brk,
    null,
    place_new s dir dentry inode q.inode i q.tag q.cnode q.entry q.at_dir q.at_tag q.at_cnode
        q.at_dentry at_i ne fresh absent is room short,
    added-Placed s inode q.tag.t_host q.entry.d_name.name q.entry.d_fsdata i q.cnode q.at_cnode at_i
        fresh absent is,
    added-Beside s inode q.tag.t_host q.entry.d_name.name q.entry.d_fsdata i q.cnode q.at_cnode at_i
        fresh absent is room,
    λ p v at_p other e. ground (arith, fresh.no_cnode p),
    λ p other some_p. some_p,
    λ p t at_p other e.
        let at_new =
          e
          ∙ added_tag s inode q.tag.t_host q.entry.d_name.name q.entry.d_fsdata i q.cnode q.at_cnode
              at_i fresh absent is in
        ground (arith, fresh.no_tag p),
  )
  cinq_tag_with-Placed s dir dentry inode q i at_i ne fresh (inr (there, cn, at, can)) =
      let c = u.find (by_str q.entry.d_name.name) q.cnode.ci_children in
      let (s', ran, g) = tag_child_with-Tagged s c q.entry.d_fsdata inode cn i at at_i ne can in
      let named : (c == null) ≡ false = ground (arith, there) in
      let beside : Beside s s' c (u.find (by_ptr q.entry.d_fsdata) cn.ci_tags) =
        subst (λ r. Beside s (left_by s r) c (u.find (by_ptr q.entry.d_fsdata) cn.ci_tags)) ran
          (retag-Beside s c q.entry.d_fsdata inode cn i at at_i ne fresh can) in
      let (dc, at_dc, _, names) = beside.cnodes q.tag.t_host q.cnode q.at_cnode in
      (
        s',
        c,
        u.find (by_ptr q.entry.d_fsdata) cn.ci_tags,
        rw (q.at_dentry, q.at_dir, q.at_tag, q.at_cnode, named) ran,
        record {
          dir_cnode = dc;
          cnode = g.after;
          tag = g.tag;
          at_dir = at_dc;
          by_name = names (by_str q.entry.d_name.name) there;
          at_child = g.cnodes;
          own = g.found_tag;
          at_tag = g.tags;
          of_fs = g.of_fs;
          with_inode = g.with_inode;
        },
        beside,
        λ p v at_p other. other,
        λ p other some_p. other cn there at,
        λ p t at_p other e. elim g.new_or_old [
          | inl new ↦ ground (arith, fresh.no_tag p)
          | inr kept ↦ other (e ∙ kept)
        ],
      )
