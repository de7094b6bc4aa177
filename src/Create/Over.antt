-- ===== src/Create/Over.antt =====
-- cinq_mkinode_ of a name that has a cnode, but no inode in the view of the file system itself: the
-- file system inherits the name, or has removed it.
use cinquain_meta.Common.{
  ℕ, ◌+◌, ◌≤◌, ◌<◌, ◌≡◌, refl, ap, sym, ◌∙◌, ◌≢◌, inl, inr, false, some, arith, ◌==◌, ltb, inc32,
}
use cinquain_meta.Containers.{Ptr, null, by_ptr, by_str, Library, Table, IsTable}
use cinquain_meta.Containers.Laws.{find-add, key_eq_refl}
use cinquain_meta.Errno.{success}
use cinquain_meta.Memory.{State, Inode, Tag, Cnode}
use cinquain_meta.Memory.Actions.{ret}
use cinquain_meta.Tag.{i_cnode, blank_tag}
use cinquain_meta.Create.{cinq_mkinode, visibility, publish}
use cinquain_meta.Create.Steps.{
  get_inode-run, publish-run, made_inode, ino_of, InodeStep, TagStep, PublishStep,
}
use cinquain_meta.Create.Request.{Request, IsFresh, Named}
use cinquain_meta.Create.Made.{tag_step}
use cinquain_meta.Create.Attach.{OverStep, Vacant, attach-run}

module _ ⦃u : Library⦄ {s : State} {dir dentry : Ptr} (fuel mode : ℕ) (r : Request s dir dentry)
    (fr : IsFresh s) (room : 1 < s.avail) (child : Ptr) (c : Cnode) where
  abbrev new_tag : Tag
  new_tag = blank_tag r.entry.d_fsdata s.brk (visibility mode)

  abbrev Inodes : State → Type 0
  Inodes s1 = InodeStep s s1 r.inode mode

  abbrev Tags : State → State → Type 0
  Tags s1 s2 =
      TagStep s1 s2 r.entry.d_fsdata s.brk (visibility mode) (made_inode r.inode mode s.now)

  new_at : (s1 s2 : State) → Inodes s1 → Tags s1 s2 → s2.tags (s.brk + 1) ≡ some new_tag
  new_at s1 s2 g1 g2 = ground (arith, g2.tags (s.brk + 1), g1.allocated.brk)

  still_free :
      (s1 s2 : State)
      → Inodes s1
      → Tags s1 s2
      → Vacant s (u.find (by_ptr r.entry.d_fsdata) c.ci_tags)
      → Vacant s2 (u.find (by_ptr r.entry.d_fsdata) c.ci_tags)
  still_free s1 s2 g1 g2 (inl gone) = inl gone
  still_free s1 s2 g1 g2 (inr (old_ne, t, at_t, neg)) = inr (
    old_ne,
    t,
    ground (
      arith,
      g2.tags (u.find (by_ptr r.entry.d_fsdata) c.ci_tags),
      g1.tags (u.find (by_ptr r.entry.d_fsdata) c.ci_tags),
      g1.allocated.brk,
      at_t,
      fr.no_tag (u.find (by_ptr r.entry.d_fsdata) c.ci_tags),
    ),
    neg,
  )

  published :
      (s1 s2 s3 : State) (rest : Table) (x : Inode)
      → r.entry.d_fsdata ≡ r.tag.t_fs
      → s.inodes r.tag.t_inode ≡ some x
      → Inodes s1
      → Tags s1 s2
      → OverStep s2 s3 child (s.brk + 1) c new_tag rest
      → (s4 : State) × (publish fuel dir dentry (s.brk + 1) s3 ≡ ret tt s4)
        × PublishStep s3 s4 dentry s.brk r.inode r.tag r.entry
  published s1 s2 s3 rest x own at_x g1 g2 g3 =
      publish-run s3 fuel dir dentry (s.brk + 1) r.inode
        (record (made_inode r.inode mode s.now) { i_count = inc32 1_000_000_000; i_ino = s1.brk }) x
        r.tag (record new_tag { t_host = child }) r.entry
        (ground (arith, g3.inodes dir, g2.inodes dir, g1.inodes dir, fr.no_inode dir, r.at_dir))
        (ground (
          arith,
          g3.tags r.inode.i_ino,
          g2.tags r.inode.i_ino,
          g1.tags r.inode.i_ino,
          fr.no_tag r.inode.i_ino,
          r.at_tag,
          g1.allocated.brk,
        ))
        (g3.dentries dentry
          ∙ g2.allocated.dentries dentry
          ∙ g1.allocated.dentries dentry
          ∙ r.at_dentry)
        (ground (arith, g3.tags (s.brk + 1))) (ground (arith, g3.inodes s.brk, g2.inodes s.brk))
        (omega (arith, fr.brk_pos))
        (ground (
          arith,
          g3.inodes r.tag.t_inode,
          g2.inodes r.tag.t_inode,
          g1.inodes r.tag.t_inode,
          fr.no_inode r.tag.t_inode,
          at_x,
        ))
        (sym own)

  leads :
      (s1 s2 s3 s4 : State) (rest : Table)
      → u.find (by_str r.entry.d_name.name) r.cnode.ci_children ≡ child
      → child ≢ null
      → child ≢ r.tag.t_host
      → c.ci_name ≡ r.entry.d_name.name
      → c.ci_parent ≡ r.tag.t_host
      → Inodes s1
      → Tags s1 s2
      → OverStep s2 s3 child (s.brk + 1) c new_tag rest
      → PublishStep s3 s4 dentry s.brk r.inode r.tag r.entry
      → IsTable rest
      → u.find (by_ptr r.entry.d_fsdata) rest ≡ null
      → Named s4 r.tag.t_host r.entry.d_name.name r.entry.d_fsdata s.brk
  leads s1 s2 s3 s4 rest by ne apart named up g1 g2 g3 g4 is3 absent = record {
    parent_cnode = r.cnode;
    child = child;
    child_cnode = record c { ci_tags = u.add (by_ptr r.entry.d_fsdata) (s.brk + 1) rest };
    tag = s.brk + 1;
    the_tag = record new_tag { t_host = child };
    at_parent = ground (
      arith,
      g4.cnodes r.tag.t_host,
      g3.cnodes r.tag.t_host,
      g2.cnodes r.tag.t_host,
      g1.cnodes r.tag.t_host,
      r.at_cnode,
      apart,
    );
    by_name = by;
    child_ne = ne;
    at_child = ground (arith, g4.cnodes child, g3.cnodes child);
    child_name = named;
    child_parent = up;
    by_fs =
        find-add (by_ptr r.entry.d_fsdata) (by_ptr r.entry.d_fsdata) (s.brk + 1) rest is3 absent
          (omega arith)
        ∙ rw (key_eq_refl (by_ptr r.entry.d_fsdata)) refl;
    tag_ne = omega arith;
    at_tag =
        ground (arith, g4.tags (s.brk + 1), g3.tags (s.brk + 1), fr.no_tag (s.brk + 1), r.at_tag);
    tag_fs = refl;
    tag_host = refl;
    tag_inode = refl;
    inode_tag = ground (arith, g4.inos s.brk, g3.inodes s.brk, g2.inodes s.brk, g1.allocated.brk);
  }

module _ ⦃u : Library⦄ where
  -- what a lookup in the directory reads, besides the name
  pub record DirKept (s s' : State) (dir : Ptr) (i : Inode) (t : Tag) : Type 0 where
    pub dir_ino : ino_of (s'.inodes dir) ≡ some i.i_ino
    pub dir_tag : s'.tags i.i_ino ≡ some (record t { t_nchild = inc32 t.t_nchild })
    pub fsnodes : (q : Ptr) → s'.fsnodes q ≡ s.fsnodes q

  pub mkinode_over-run :
      (s : State) (fuel : ℕ) (dir dentry : Ptr) (mode : ℕ) (r : Request s dir dentry) (child : Ptr)
      (c : Cnode)
      → IsFresh s
      → 1 < s.avail
      → r.entry.d_name.len ≤ 255
      → r.entry.d_fsdata ≡ r.tag.t_fs
      → (x : Inode) × (s.inodes r.tag.t_inode ≡ some x)
      → u.find (by_str r.entry.d_name.name) r.cnode.ci_children ≡ child
      → child ≢ null
      → child ≢ r.tag.t_host
      → s.cnodes child ≡ some c
      → c.ci_name ≡ r.entry.d_name.name
      → c.ci_parent ≡ r.tag.t_host
      → IsTable c.ci_tags
      → Vacant s (u.find (by_ptr r.entry.d_fsdata) c.ci_tags)
      → (s' : State) × (cinq_mkinode fuel dir dentry mode s ≡ ret success s')
        × Named s' r.tag.t_host r.entry.d_name.name r.entry.d_fsdata s.brk
        × DirKept s s' dir r.inode r.tag
  unfolding cinq_mkinode i_cnode
  mkinode_over-run s fuel dir dentry mode r child c fr room short own (x, at_x) by ne apart at_c
        named up is free =
      let (s1, ran1, g1) = get_inode-run s dir mode r.inode r.at_dir (omega arith) fr.brk_pos in
      let (s2, ran2, g2) = tag_step mode r fr room s1 g1 in
      let kept = λ (q : Ptr). g2.cnodes q ∙ g1.cnodes q in
      let (rest, s3, is3, absent, ran3, g3) =
        attach-run s2 r.tag.t_host r.entry.d_fsdata (s.brk + 1) child r.entry.d_name.name r.cnode c
          (new_tag fuel mode r fr room child c) (kept r.tag.t_host ∙ r.at_cnode) by ne
          (kept child ∙ at_c) is (still_free fuel mode r fr room child c s1 s2 g1 g2 free)
          (new_at fuel mode r fr room child c s1 s2 g1 g2) in
      let (s4, ran4, g4) =
        published fuel mode r fr room child c s1 s2 s3 rest x own at_x g1 g2 g3 in
      let fits : ltb 255 r.entry.d_name.len ≡ false = ground arith in
      let inode_ne : (s.brk == null) ≡ false = ground arith in
      let tag_ne : (s.brk + 1 == null) ≡ false = ground arith in
      let there : s3.inodes dir ≡ some r.inode =
        ground (arith, g3.inodes dir, g2.inodes dir, g1.inodes dir, fr.no_inode dir, r.at_dir) in
      (
        s4,
        rw (r.at_dir, r.at_tag, r.at_dentry, fits, ran1, inode_ne, ran2, tag_ne, ran3, ran4),
        leads fuel mode r fr room child c s1 s2 s3 s4 rest by ne apart named up g1 g2 g3 g4 is3
            absent,
        record {
          dir_ino = g4.inos dir ∙ ap ino_of there;
          dir_tag = ground (arith, g4.tags r.inode.i_ino);
          fsnodes =
              λ q. g4.fsnodes q ∙ g3.fsnodes q ∙ g2.allocated.fsnodes q ∙ g1.allocated.fsnodes q;
        },
      )

  -- cinq_mkinode_ of a name of at most MAX_NAME_LEN bytes whose cnode in the directory carries no
  -- tag of the file system that makes the request, or a negative one, where the directory's tag is
  -- of that file system and two allocations succeed, ends with success and no fault: the same
  -- cnode then has a tag of that file system with a new inode, in place of the negative one, and
  -- the pointers back agree. The memory before has nothing at the addresses that malloc has not
  -- given out, and no key twice in the tables in use.
  pub mkinode-over :
      (s : State) (fuel : ℕ) (dir dentry : Ptr) (mode : ℕ) (r : Request s dir dentry) (child : Ptr)
      (c : Cnode)
      → IsFresh s
      → 1 < s.avail
      → r.entry.d_name.len ≤ 255
      → r.entry.d_fsdata ≡ r.tag.t_fs
      → (x : Inode) × (s.inodes r.tag.t_inode ≡ some x)
      → u.find (by_str r.entry.d_name.name) r.cnode.ci_children ≡ child
      → child ≢ null
      → child ≢ r.tag.t_host
      → s.cnodes child ≡ some c
      → c.ci_name ≡ r.entry.d_name.name
      → c.ci_parent ≡ r.tag.t_host
      → IsTable c.ci_tags
      → Vacant s (u.find (by_ptr r.entry.d_fsdata) c.ci_tags)
      → (s' : State) × (cinq_mkinode fuel dir dentry mode s ≡ ret success s')
        × Named s' r.tag.t_host r.entry.d_name.name r.entry.d_fsdata s.brk
  mkinode-over s fuel dir dentry mode r child c fr room short own at_x by ne apart at_c named up is
        free =
      let (s', ran, n, _) =
        mkinode_over-run s fuel dir dentry mode r child c fr room short own at_x by ne apart at_c
          named up is free in
      (s', ran, n)
