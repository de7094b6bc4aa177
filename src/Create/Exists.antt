-- ===== src/Create/Exists.antt =====
-- cinq_mkinode_ of a name that the file system has already.
use cinquain_meta.Common.{
  ℕ, ◌+◌, ◌≤◌, ◌<◌, ◌≡◌, ◌∙◌, ◌≢◌, false, some, arith, ◌==◌, List, ltb, inc32,
}
use cinquain_meta.Containers.{Ptr, null, by_ptr, by_str, Library}
use cinquain_meta.Errno.{failure, einval}
use cinquain_meta.Memory.{State, Inode, Tag, Cnode}
use cinquain_meta.Memory.Actions.{ret}
use cinquain_meta.Tag.{i_cnode, blank_tag, cnode_find_tag, negative}
use cinquain_meta.Cnode.{cnode_find_child}
use cinquain_meta.Create.{cinq_mkinode, attach, attach_to_child, visibility}
use cinquain_meta.Create.Steps.{get_inode-run, made_inode, InodeStep, TagStep}
use cinquain_meta.Create.Request.{Request, IsFresh}
use cinquain_meta.Create.Made.{tag_step}

module _ ⦃u : Library⦄ where
  attach-exists :
      (s : State) (parent tag fs child : Ptr) (r : Cnode) (name : List ℕ) (c : Cnode) (t : Tag)
      → s.cnodes parent ≡ some r
      → u.find (by_str name) r.ci_children ≡ child
      → child ≢ null
      → s.cnodes child ≡ some c
      → s.tags (u.find (by_ptr fs) c.ci_tags) ≡ some t
      → u.find (by_ptr fs) c.ci_tags ≢ null
      → t.t_inode ≢ null
      → attach parent name fs tag s ≡ ret (failure einval) s
  unfolding attach attach_to_child cnode_find_child cnode_find_tag negative
  attach-exists s parent tag fs child r name c t at_p by ne at_c at_t old_ne live = ground arith

  -- Of a name that has a tag of the file system with an inode, cinq_mkinode_ returns EINVAL where
  -- two allocations succeed. No cnode and no dentry changes, so the name is as it was; but the new
  -- inode and the new tag, at the next two addresses, stay allocated.
  pub mkinode-exists :
      (s : State) (fuel : ℕ) (dir dentry : Ptr) (mode : ℕ) (r : Request s dir dentry) (child : Ptr)
      (c : Cnode) (t : Tag)
      → IsFresh s
      → 1 < s.avail
      → r.entry.d_name.len ≤ 255
      → u.find (by_str r.entry.d_name.name) r.cnode.ci_children ≡ child
      → child ≢ null
      → s.cnodes child ≡ some c
      → s.tags (u.find (by_ptr r.entry.d_fsdata) c.ci_tags) ≡ some t
      → u.find (by_ptr r.entry.d_fsdata) c.ci_tags ≢ null
      → t.t_inode ≢ null
      → (s' : State) × (i : Inode) × (leaked : Tag) × (cinq_mkinode fuel dir dentry mode s
          ≡ ret (failure einval) s')
        × (s'.inodes s.brk ≡ some i)
        × (s'.tags (s.brk + 1) ≡ some leaked)
        × (s'.brk ≡ s.brk + 2)
        × ((q : Ptr) → s'.cnodes q ≡ s.cnodes q)
        × ((q : Ptr) → s'.dentries q ≡ s.dentries q)
  unfolding cinq_mkinode i_cnode
  mkinode-exists s fuel dir dentry mode r child c t fr room short by ne at_c at_t old_ne live =
      let (s1, ran1, g1) = get_inode-run s dir mode r.inode r.at_dir (omega arith) fr.brk_pos in
      let (s2, ran2, g2) = tag_step mode r fr room s1 g1 in
      let kept = λ (q : Ptr). g2.cnodes q ∙ g1.cnodes q in
      let ran3 =
        attach-exists s2 r.tag.t_host (s.brk + 1) r.entry.d_fsdata child r.cnode r.entry.d_name.name
          c t (kept r.tag.t_host ∙ r.at_cnode) by ne (kept child ∙ at_c) (old_kept s1 s2 g1 g2)
          old_ne live in
      let fits : ltb 255 r.entry.d_name.len ≡ false = ground arith in
      let inode_ne : (s.brk == null) ≡ false = ground arith in
      let tag_ne : (s.brk + 1 == null) ≡ false = ground arith in
      (
        s2,
        record (made_inode r.inode mode s.now) { i_count = inc32 1_000_000_000; i_ino = s1.brk },
        blank_tag r.entry.d_fsdata s.brk (visibility mode),
        rw (r.at_dir, r.at_tag, r.at_dentry, fits, ran1, inode_ne, ran2, tag_ne, ran3),
        ground (arith, g2.inodes s.brk),
        ground (arith, g2.tags (s.brk + 1), g1.allocated.brk),
        omega (arith, g2.allocated.brk, g1.allocated.brk),
        kept,
        λ q. g2.allocated.dentries q ∙ g1.allocated.dentries q,
      )
    where
      old_kept :
          (s1 s2 : State)
          → InodeStep s s1 r.inode mode
          → TagStep s1 s2 r.entry.d_fsdata s.brk (visibility mode) (made_inode r.inode mode s.now)
          → s2.tags (u.find (by_ptr r.entry.d_fsdata) c.ci_tags) ≡ some t
      old_kept s1 s2 g1 g2 = ground (
        arith,
        g2.tags (u.find (by_ptr r.entry.d_fsdata) c.ci_tags),
        g1.tags (u.find (by_ptr r.entry.d_fsdata) c.ci_tags),
        at_t,
        g1.allocated.brk,
        fr.no_tag (u.find (by_ptr r.entry.d_fsdata) c.ci_tags),
      )
