-- ===== src/Create/Made.antt =====
-- cinq_mkinode_ of a new name, in a directory of the file system that makes the request.
use cinquain_meta.Common.{
  ℕ, ◌+◌, ◌≤◌, ◌<◌, ◌≡◌, refl, sym, ◌∙◌, false, some, [], arith, ◌==◌, ltb, inc32, length,
}
use cinquain_meta.Containers.{Ptr, null, by_ptr, by_str, Library, IsTable}
use cinquain_meta.Containers.Laws.{find-add, find-nil, key_eq_refl}
use cinquain_meta.Errno.{success, failure, enametoolong}
use cinquain_meta.Memory.{State, Inode, Tag}
use cinquain_meta.Memory.Actions.{ret}
use cinquain_meta.Tag.{i_cnode, tag_new, blank_tag}
use cinquain_meta.Cnode.{cnode_find_child, blank_cnode}
use cinquain_meta.Create.{cinq_mkinode, attach, visibility, publish}
use cinquain_meta.Create.Steps.{
  get_inode-run, tag_new-run, attach_to_new-run, publish-run, made_inode, InodeStep, TagStep,
  ChildStep, PublishStep,
}
use cinquain_meta.Create.Request.{Request, IsFresh, Named}

module _ ⦃u : Library⦄ where
  -- A name longer than MAX_NAME_LEN is refused, and nothing changes.
  mkinode-too_long :
      (s : State) (fuel : ℕ) (dir dentry : Ptr) (mode : ℕ) (r : Request s dir dentry)
      → 255 < r.entry.d_name.len
      → cinq_mkinode fuel dir dentry mode s ≡ ret (failure enametoolong) s
  unfolding cinq_mkinode i_cnode
  mkinode-too_long s fuel dir dentry mode r h = rw (r.at_dir, r.at_tag, r.at_dentry) (ground arith)

module _ ⦃u : Library⦄ {s : State} {dir dentry : Ptr} (mode : ℕ) (r : Request s dir dentry)
    (fr : IsFresh s) (room : 1 < s.avail) where
  pub tag_step :
      (s1 : State)
      → InodeStep s s1 r.inode mode
      → (s2 : State) × (tag_new r.entry.d_fsdata s.brk (visibility mode) s1 ≡ ret (s.brk + 1) s2)
        × TagStep s1 s2 r.entry.d_fsdata s.brk (visibility mode) (made_inode r.inode mode s.now)
  tag_step s1 g1 = rw (← g1.allocated.brk) (
      tag_new-run s1 r.entry.d_fsdata s.brk (visibility mode) (made_inode r.inode mode s.now)
        (ground (arith, g1.inodes s.brk)) (omega arith) (omega arith) (omega arith))

module _ ⦃u : Library⦄ {s : State} {dir dentry : Ptr} (mode : ℕ) (r : Request s dir dentry)
    (fr : IsFresh s) (room : 2 < s.avail) where
  -- the new tag, before it has a host
  abbrev new_tag : Tag
  new_tag = blank_tag r.entry.d_fsdata s.brk (visibility mode)

  child_step :
      (s1 s2 : State)
      → InodeStep s s1 r.inode mode
      → TagStep s1 s2 r.entry.d_fsdata s.brk (visibility mode) (made_inode r.inode mode s.now)
      → u.find (by_str r.entry.d_name.name) r.cnode.ci_children ≡ null
      → length r.entry.d_name.name ≤ 255
      → (s3 : State) × (attach r.tag.t_host r.entry.d_name.name r.entry.d_fsdata (s.brk + 1) s2
          ≡ ret success s3)
        × ChildStep s2 s3 r.tag.t_host r.entry.d_name.name (s.brk + 1) r.cnode new_tag
  unfolding attach cnode_find_child
  child_step s1 s2 g1 g2 absent fits =
      let at : s2.cnodes r.tag.t_host ≡ some r.cnode =
        ground (arith, g2.cnodes r.tag.t_host, g1.cnodes r.tag.t_host) in
      rw (at, absent)
        (attach_to_new-run s2 r.tag.t_host r.entry.d_name.name (s.brk + 1) r.cnode new_tag at
          (ground (arith, g2.tags (s.brk + 1)))
          (ground (arith, g2.cnodes s2.brk, g1.cnodes s2.brk, fr.no_cnode s2.brk)) (omega arith)
          (omega arith) fits)

  publish_step :
      (fuel : ℕ) (s1 s2 s3 : State)
      → InodeStep s s1 r.inode mode
      → TagStep s1 s2 r.entry.d_fsdata s.brk (visibility mode) (made_inode r.inode mode s.now)
      → ChildStep s2 s3 r.tag.t_host r.entry.d_name.name (s.brk + 1) r.cnode new_tag
      → r.entry.d_fsdata ≡ r.tag.t_fs
      → (x : Inode) × (s.inodes r.tag.t_inode ≡ some x)
      → (s4 : State) × (publish fuel dir dentry (s.brk + 1) s3 ≡ ret tt s4)
        × PublishStep s3 s4 dentry s.brk r.inode r.tag r.entry
  publish_step fuel s1 s2 s3 g1 g2 g3 own (x, at_x) =
      publish-run s3 fuel dir dentry (s.brk + 1) r.inode
        (record (made_inode r.inode mode s.now) { i_count = inc32 1_000_000_000; i_ino = s1.brk }) x
        r.tag (record new_tag { t_host = s2.brk }) r.entry
        (ground (arith, g3.inodes dir, g2.inodes dir, g1.inodes dir, fr.no_inode dir))
        (ground (
          arith,
          g3.tags r.inode.i_ino,
          g2.tags r.inode.i_ino,
          g1.tags r.inode.i_ino,
          fr.no_tag r.inode.i_ino,
        ))
        (ground (
          arith,
          g3.allocated.dentries dentry,
          g2.allocated.dentries dentry,
          g1.allocated.dentries dentry,
        ))
        (ground (arith, g3.tags (s.brk + 1), g2.tags (s.brk + 1)))
        (ground (arith, g3.inodes s.brk, g2.inodes s.brk)) (omega arith)
        (ground (
          arith,
          g3.inodes r.tag.t_inode,
          g2.inodes r.tag.t_inode,
          g1.inodes r.tag.t_inode,
          fr.no_inode r.tag.t_inode,
        ))
        (sym own)

  pub Named-of_steps :
      (s1 s2 s3 s4 : State)
      → InodeStep s s1 r.inode mode
      → TagStep s1 s2 r.entry.d_fsdata s.brk (visibility mode) (made_inode r.inode mode s.now)
      → ChildStep s2 s3 r.tag.t_host r.entry.d_name.name (s.brk + 1) r.cnode new_tag
      → PublishStep s3 s4 dentry s.brk r.inode r.tag r.entry
      → IsTable r.cnode.ci_children
      → u.find (by_str r.entry.d_name.name) r.cnode.ci_children ≡ null
      → Named s4 r.tag.t_host r.entry.d_name.name r.entry.d_fsdata s.brk
  Named-of_steps s1 s2 s3 s4 g1 g2 g3 g4 is absent = record {
    parent_cnode = record r.cnode {
      ci_children = u.add (by_str r.entry.d_name.name) s2.brk r.cnode.ci_children;
    };
    child = s2.brk;
    child_cnode = record (blank_cnode s2.brk r.entry.d_name.name) {
      ci_tags = u.add (by_ptr r.entry.d_fsdata) (s.brk + 1) [];
      ci_parent = r.tag.t_host;
    };
    tag = s.brk + 1;
    the_tag = record new_tag { t_host = s2.brk };
    at_parent = ground (
      arith,
      g4.cnodes r.tag.t_host,
      g3.cnodes r.tag.t_host,
      r.at_cnode,
      fr.no_cnode r.tag.t_host,
    );
    by_name =
        find-add (by_str r.entry.d_name.name) (by_str r.entry.d_name.name) s2.brk
          r.cnode.ci_children is absent (omega arith)
        ∙ rw (key_eq_refl (by_str r.entry.d_name.name));
    child_ne = omega arith;
    at_child = ground (arith, g4.cnodes s2.brk, g3.cnodes s2.brk);
    child_name = refl;
    child_parent = refl;
    by_fs =
        find-add (by_ptr r.entry.d_fsdata) (by_ptr r.entry.d_fsdata) (s.brk + 1) [] tt
          (find-nil (by_ptr r.entry.d_fsdata)) (omega arith)
        ∙ rw (key_eq_refl (by_ptr r.entry.d_fsdata));
    tag_ne = omega arith;
    at_tag = ground (
      arith,
      g4.tags (s.brk + 1),
      g3.tags (s.brk + 1),
      g2.tags (s.brk + 1),
      fr.no_tag (s.brk + 1),
      r.at_tag,
    );
    tag_fs = refl;
    tag_host = refl;
    tag_inode = refl;
    inode_tag = ground (arith, g4.inos s.brk, g3.inodes s.brk, g2.inodes s.brk);
  }

module _ ⦃u : Library⦄ where
  -- the whole run, as its four steps
  pub mkinode-steps :
      (s : State) (fuel : ℕ) (dir dentry : Ptr) (mode : ℕ) (r : Request s dir dentry)
      → IsFresh s
      → 2 < s.avail
      → r.entry.d_name.len ≤ 255
      → length r.entry.d_name.name ≤ 255
      → r.entry.d_fsdata ≡ r.tag.t_fs
      → (x : Inode) × (s.inodes r.tag.t_inode ≡ some x)
      → u.find (by_str r.entry.d_name.name) r.cnode.ci_children ≡ null
      → (s1 : State) × (s2 : State) × (s3 : State) × (s' : State) × (cinq_mkinode fuel dir dentry
            mode s
          ≡ ret success s')
        × InodeStep s s1 r.inode mode
        × TagStep s1 s2 r.entry.d_fsdata s.brk (visibility mode) (made_inode r.inode mode s.now)
        × ChildStep s2 s3 r.tag.t_host r.entry.d_name.name
            (s.brk + 1)
            r.cnode
            (blank_tag r.entry.d_fsdata s.brk (visibility mode))
        × PublishStep s3 s' dentry s.brk r.inode r.tag r.entry
  unfolding cinq_mkinode i_cnode
  mkinode-steps s fuel dir dentry mode r fr room short bytes own at_x absent =
      let (s1, ran1, g1) = get_inode-run s dir mode r.inode r.at_dir (omega arith) fr.brk_pos in
      let (s2, ran2, g2) = tag_step mode r fr (omega arith) s1 g1 in
      let (s3, ran3, g3) = child_step mode r fr room s1 s2 g1 g2 absent bytes in
      let (s4, ran4, g4) = publish_step mode r fr room fuel s1 s2 s3 g1 g2 g3 own at_x in
      let fits : ltb 255 r.entry.d_name.len ≡ false = ground arith in
      let inode_ne : (s.brk == null) ≡ false = ground arith in
      let tag_ne : (s.brk + 1 == null) ≡ false = ground arith in
      (
        s1,
        s2,
        s3,
        s4,
        rw (r.at_dir, r.at_tag, r.at_dentry, fits, ran1, inode_ne, ran2, tag_ne, ran3, ran4),
        g1,
        g2,
        g3,
        g4,
      )

  -- cinq_mkinode_ of a name of at most MAX_NAME_LEN bytes that has no cnode in the directory,
  -- where the directory's tag is of the file system that makes the request and three allocations
  -- succeed, ends with success and no fault: the name leads to a new cnode with a tag of that file
  -- system and a new inode, the pointers back agree, and the dentry has the inode and is pinned.
  -- The memory before has nothing at the addresses that malloc has not given out, and no key twice
  -- in the tables in use.
  pub mkinode-Named :
      (s : State) (fuel : ℕ) (dir dentry : Ptr) (mode : ℕ) (r : Request s dir dentry)
      → IsFresh s
      → 2 < s.avail
      → r.entry.d_name.len ≤ 255
      → length r.entry.d_name.name ≤ 255
      → r.entry.d_fsdata ≡ r.tag.t_fs
      → (x : Inode) × (s.inodes r.tag.t_inode ≡ some x)
      → IsTable r.cnode.ci_children
      → u.find (by_str r.entry.d_name.name) r.cnode.ci_children ≡ null
      → (s' : State) × (cinq_mkinode fuel dir dentry mode s ≡ ret success s')
        × Named s' r.tag.t_host r.entry.d_name.name r.entry.d_fsdata s.brk
        × (s'.dentries dentry ≡ some (record r.entry { d_inode = s.brk; d_count = 0x7fff_ffff }))
  mkinode-Named s fuel dir dentry mode r fr room short bytes own at_x is absent =
      let (s1, s2, s3, s4, ran, g1, g2, g3, g4) =
        mkinode-steps s fuel dir dentry mode r fr room short bytes own at_x absent in
      (
        s4,
        ran,
        Named-of_steps mode r fr room s1 s2 s3 s4 g1 g2 g3 g4 is absent,
        ground (arith, g4.dentries dentry),
      )
