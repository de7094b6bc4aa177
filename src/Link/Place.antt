-- ===== src/Link/Place.antt =====
-- What cinq_tag_with_ leaves, as the operations after it need it.
use cinquain_meta.Common.{
  ℕ, ◌+◌, ◌≤◌, ◌<◌, ◌≡◌, ◌≢◌, refl, sym, ◌∙◌, ap, subst, inl, inr, false, true, some, none, [],
  inc32, ◌-◌, ◌==◌, arith, Bool-cases, List, ltb, length,
}
use cinquain_meta.Containers.{Ptr, null, Key, by_ptr, by_str, key_eq, Library, IsTable}
use cinquain_meta.Containers.Laws.{find-add, key_eq_refl, key_eq→eq, find-nil}
use cinquain_meta.Errno.{success}
use cinquain_meta.Memory.{State, Inode, Tag, Cnode, Dentry}
use cinquain_meta.Memory.Actions.{ret, update}
use cinquain_meta.Tag.{cinq_visible, blank_tag, i_cnode, i_tag, tag_new_with, cnode_add_tag}
use cinquain_meta.Vfs.{ihold}
use cinquain_meta.Cnode.{cnode_find_child, cnode_new, cnode_add_child, blank_cnode}
use cinquain_meta.Create.Request.{IsFresh}
use cinquain_meta.Link.{cinq_tag_with}

module _ ⦃u : Library⦄ where
  -- In the directory the name leads to a cnode with a tag of the file system that has the inode.
  pub record Placed (s : State) (host : Ptr) (name : List ℕ) (fs inode child : Ptr) : Type 0 where
    pub dir_cnode : Cnode
    pub cnode : Cnode
    pub tag : Tag
    pub at_dir : s.cnodes host ≡ some dir_cnode
    pub by_name : u.find (by_str name) dir_cnode.ci_children ≡ child
    pub at_child : s.cnodes child ≡ some cnode
    pub own : u.find (by_ptr fs) cnode.ci_tags ≢ null
    pub at_tag : s.tags (u.find (by_ptr fs) cnode.ci_tags) ≡ some tag
    pub of_fs : tag.t_fs ≡ fs
    pub with_inode : tag.t_inode ≡ inode

  -- Every inode keeps its mode, its links and its tag, and every tag its cnode, its file system and its count, all tags but
  -- one whole; every name that was found leads where it did, and every cnode but one keeps its tags.
  pub record Beside (s s' : State) (child old : Ptr) : Type 0 where
    pub dentries : (q : Ptr) → s'.dentries q ≡ s.dentries q
    pub fsnodes : (q : Ptr) → s'.fsnodes q ≡ s.fsnodes q
    pub inodes :
        (q : Ptr) (i : Inode)
        → s.inodes q ≡ some i
        → (i' : Inode) × (s'.inodes q ≡ some i')
          × (i'.i_ino ≡ i.i_ino)
          × (i'.i_mode ≡ i.i_mode)
          × (i'.i_nlink ≡ i.i_nlink)
    pub tags :
        (q : Ptr) (t : Tag)
        → s.tags q ≡ some t
        → (t' : Tag) × (s'.tags q ≡ some t')
          × (t'.t_host ≡ t.t_host)
          × (t'.t_fs ≡ t.t_fs)
          × (t'.t_nchild ≡ t.t_nchild)
          × (q ≢ old → t' ≡ t)
    pub cnodes :
        (q : Ptr) (cn : Cnode)
        → s.cnodes q ≡ some cn
        → (cn' : Cnode) × (s'.cnodes q ≡ some cn')
          × (q ≢ child → cn'.ci_tags ≡ cn.ci_tags)
          × ((k : Key)
              → u.find k cn.ci_children ≢ null
              → u.find k cn'.ci_children ≡ u.find k cn.ci_children)
    pub no_tag : s'.tags s'.brk ≡ none
    pub low : 0 < s'.brk
    pub room : s.avail ≤ s'.avail + 2

  pub find-first : (fs p : Ptr) → p ≢ null → u.find (by_ptr fs) (u.add (by_ptr fs) p []) ≡ p
  find-first fs p ne =
      find-add (by_ptr fs) (by_ptr fs) p [] tt (find-nil (by_ptr fs)) ne
      ∙ rw (key_eq_refl (by_ptr fs)) refl

  module _ (s : State) (inode host : Ptr) (name : List ℕ) (fs : Ptr) (i : Inode) (dc : Cnode) where
    -- the new cnode, and what cinq_tag_with_ leaves when it makes it
    new_child : Cnode
    new_child = record (blank_cnode s.brk name) {
      ci_tags = u.add (by_ptr fs) (s.brk + 1) [];
      ci_parent = host;
    }

    pub added : State
    added = record s {
      inodes = update s.inodes inode (some (record i { i_count = inc32 i.i_count }));
      tags =
          update (update s.tags (s.brk + 1) (some (blank_tag fs inode cinq_visible))) (s.brk + 1)
            (some (record (blank_tag fs inode cinq_visible) { t_host = s.brk }));
      cnodes =
          update
            (update
              (update (update s.cnodes s.brk (some (blank_cnode s.brk name))) s.brk (
                some
                  (record (blank_cnode s.brk name) { ci_tags = u.add (by_ptr fs) (s.brk + 1) [] })))
              host (some (record dc { ci_children = u.add (by_str name) s.brk dc.ci_children })))
            s.brk (some new_child);
      brk = s.brk + 1 + 1;
      avail = s.avail - 1 - 1;
    }

  module _ (s : State) (dir dentry inode : Ptr) (di i : Inode) (dt : Tag) (dc : Cnode) (d : Dentry)
      (at_dir : s.inodes dir ≡ some di) (at_dt : s.tags di.i_ino ≡ some dt)
      (at_dc : s.cnodes dt.t_host ≡ some dc) (at_d : s.dentries dentry ≡ some d)
      (at_i : s.inodes inode ≡ some i) (ne : inode ≢ null) (fresh : IsFresh s) where
    pub place_new :
        u.find (by_str d.d_name.name) dc.ci_children ≡ null
        → IsTable dc.ci_children
        → 1 < s.avail
        → length d.d_name.name ≤ 255
        → cinq_tag_with dir dentry inode s
          ≡ ret success (added s inode dt.t_host d.d_name.name d.d_fsdata i dc)
    unfolding cinq_tag_with i_cnode i_tag cnode_find_child cnode_new tag_new_with cnode_add_tag
        cnode_add_child ihold added new_child
    place_new absent is room short =
        let host_ne : dt.t_host ≢ s.brk = λ e. ground (arith, fresh.no_cnode s.brk) in
        let low = fresh.brk_pos in
        let fits : ltb 255 (length d.d_name.name) ≡ false = ground arith in
        let a0 : (s.avail == 0) ≡ false = ground arith in
        let a1 : (s.avail - 1 == 0) ≡ false = ground arith in
        let b0 : (s.brk == null) ≡ false = ground arith in
        let b1 : (s.brk + 1 == null) ≡ false = ground arith in
        let i0 : (inode == null) ≡ false = ground arith in
        let same : (s.brk == s.brk) ≡ true = ground arith in
        let same1 : (s.brk + 1 == s.brk + 1) ≡ true = ground arith in
        let other : (s.brk == dt.t_host) ≡ false = ground arith in
        let other' : (dt.t_host == s.brk) ≡ false = ground arith in
        rw
          (
            at_d, at_dir, at_dt, at_dc, absent, a0, b0, fits, b0, a1, b1, i0, at_i, b1, same1, same,
            same1, same, other, at_dc, other', same,
          )
          refl

  module _ (s : State) (inode host : Ptr) (name : List ℕ) (fs : Ptr) (i : Inode) (dc : Cnode)
      (at_host : s.cnodes host ≡ some dc) (at_i : s.inodes inode ≡ some i) (fresh : IsFresh s)
      (absent : u.find (by_str name) dc.ci_children ≡ null) (is : IsTable dc.ci_children) where
    host_ne : host ≢ s.brk
    host_ne e = ground (arith, fresh.no_cnode s.brk)

    pub added-Placed : Placed (added s inode host name fs i dc) host name fs inode s.brk
    unfolding added new_child host_ne
    added-Placed =
        let low = fresh.brk_pos in
        let apart = host_ne in
        let own : u.find (by_ptr fs) (u.add (by_ptr fs) (s.brk + 1) []) ≡ s.brk + 1 =
          find-first fs (s.brk + 1) (omega arith) in
        record {
          dir_cnode = record dc { ci_children = u.add (by_str name) s.brk dc.ci_children };
          cnode = new_child s inode host name fs i dc;
          tag = record (blank_tag fs inode cinq_visible) { t_host = s.brk };
          at_dir = ground arith;
          by_name =
              find-add (by_str name) (by_str name) s.brk dc.ci_children is absent (omega arith)
              ∙ rw (key_eq_refl (by_str name)) refl;
          at_child = ground arith;
          own = rw own (omega arith);
          at_tag = rw own (ground arith);
          of_fs = refl;
          with_inode = refl;
        }

    pub added_tag : u.find (by_ptr fs) added-Placed.cnode.ci_tags ≡ s.brk + 1
    unfolding added-Placed new_child
    added_tag = find-first fs (s.brk + 1) (omega (arith, fresh.brk_pos))

    kept_child :
        (k : Key)
        → u.find k dc.ci_children ≢ null
        → u.find k (u.add (by_str name) s.brk dc.ci_children) ≡ u.find k dc.ci_children
    kept_child k there =
        let low = fresh.brk_pos in
        find-add (by_str name) k s.brk dc.ci_children is absent (omega arith)
        ∙ elim (Bool-cases (key_eq (by_str name) k)) [
          | inl e ↦ absurd (
              there
                (ap (λ j. u.find j dc.ci_children) (sym (key_eq→eq (by_str name) k e)) ∙ absent))
          | inr e ↦ rw e refl
        ]

    pub added-Beside : 1 < s.avail → Beside s (added s inode host name fs i dc) s.brk null
    unfolding added
    added-Beside room =
        let low = fresh.brk_pos in
        let apart = host_ne in
        record {
          dentries = λ q. refl;
          fsnodes = λ q. refl;
          inodes = λ q j at. elim (Bool-cases (inode == q)) [
            | inl e ↦ (
              record i { i_count = inc32 i.i_count },
              rw e refl,
              ground arith,
              ground arith,
              ground arith,
            )
            | inr e ↦ (j, rw e at, refl, refl, refl)
          ];
          tags = λ q t at.
              let ne : q ≢ s.brk + 1 = λ e. ground (arith, fresh.no_tag q) in
              (t, ground arith, refl, refl, refl, λ x. refl);
          cnodes = λ q cn at.
              let ne : q ≢ s.brk = λ e. ground (arith, fresh.no_cnode q) in
              elim (Bool-cases (host == q)) [
                | inl e ↦
                    let eq : q ≡ host = ground arith in
                    let same : dc ≡ cn = cc in
                    (
                      record dc { ci_children = u.add (by_str name) s.brk dc.ci_children },
                      ground arith,
                      λ x. ap (λ v. v.ci_tags) same,
                      subst
                          (λ (v : Cnode).
                            (k : Key)
                            → u.find k v.ci_children ≢ null
                            → u.find k (u.add (by_str name) s.brk dc.ci_children)
                              ≡ u.find k v.ci_children)
                          same kept_child,
                    )
                | inr e ↦ (cn, ground arith, λ x. refl, λ k there. refl)
              ];
          no_tag = ground (arith, fresh.no_tag (s.brk + 2));
          low = omega arith;
          room = omega arith;
        }
