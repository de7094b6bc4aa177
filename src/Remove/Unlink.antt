-- ===== src/Remove/Unlink.antt =====
-- cinq_unlink of a name that the file system inherits.
use cinquain_meta.Common.{
  ℕ, suc, ◌<◌, ◌≡◌, ◌≢◌, refl, ◌∙◌, false, none, some, ◌==◌, if◌then◌else◌, arith,
}
use cinquain_meta.Containers.{Ptr, null, by_ptr, by_str, Library, IsTable}
use cinquain_meta.Containers.Laws.{find-add, key_ne, key_eq_refl}
use cinquain_meta.Errno.{success}
use cinquain_meta.Memory.{State, Inode, Tag, Cnode, Dentry, Fsnode, meta_fs}
use cinquain_meta.Memory.Actions.{ret, left_by}
use cinquain_meta.Tag.{cinq_visible, blank_tag, i_cnode}
use cinquain_meta.Cnode.{cnode_find_child, cnode_lookup_inode}
use cinquain_meta.Cnode.Nearest.{lookup-own}
use cinquain_meta.Remove.{cinq_unlink, detach, stamp}

module _ ⦃u : Library⦄ where
  -- A name in a directory: its dentry, and the cnode that the name leads to.
  pub record Entry (s : State) (dir dentry : Ptr) : Type 0 where
    pub dir_inode : Inode
    pub dir_tag : Tag
    pub dir_cnode : Cnode
    pub entry : Dentry
    pub inode : Inode
    pub child : Ptr
    pub cnode : Cnode
    pub at_dir : s.inodes dir ≡ some dir_inode
    pub at_tag : s.tags dir_inode.i_ino ≡ some dir_tag
    pub at_dir_cnode : s.cnodes dir_tag.t_host ≡ some dir_cnode
    pub at_dentry : s.dentries dentry ≡ some entry
    pub inode_ne : entry.d_inode ≢ null
    pub at_inode : s.inodes entry.d_inode ≡ some inode
    pub by_name : u.find (by_str entry.d_name.name) dir_cnode.ci_children ≡ child
    pub child_ne : child ≢ null
    pub at_child : s.cnodes child ≡ some cnode
    pub has_request : entry.d_fsdata ≢ null

  -- What cinq_unlink leaves: the file system sees no inode at the cnode, whose tags of all others are
  -- as before, no other cnode changes, and every tag but one keeps its file system and its inode.
  pub record Unlinked (s s' : State) (child fs own : Ptr) (cn : Cnode) : Type 0 where
    pub after : Cnode
    pub hidden : (rounds : ℕ) → cnode_lookup_inode (suc rounds) child fs s' ≡ ret null s'
    pub at_child : s'.cnodes child ≡ some after
    pub others :
        (other : Ptr)
        → fs ≢ other
        → u.find (by_ptr other) after.ci_tags ≡ u.find (by_ptr other) cn.ci_tags
    pub children : after.ci_children ≡ cn.ci_children
    pub cnodes : (q : Ptr) → q ≢ child → s'.cnodes q ≡ s.cnodes q
    pub fsnodes : (q : Ptr) → s'.fsnodes q ≡ s.fsnodes q
    pub tags :
        (q : Ptr) (t : Tag)
        → s.tags q ≡ some t
        → q ≢ own
        → (t' : Tag) × (s'.tags q ≡ some t') × (t'.t_fs ≡ t.t_fs) × (t'.t_inode ≡ t.t_inode)

  -- detach of a cnode without a tag of the file system
  record Whiteout (s s' : State) (c fs : Ptr) (cn : Cnode) : Type 0 where
    tags : s'.tags s.brk ≡ some (record (blank_tag fs null cinq_visible) { t_host = c })
    cnodes : s'.cnodes c ≡ some (record cn { ci_tags = u.add (by_ptr fs) s.brk cn.ci_tags })
    inodes : (q : Ptr) → s'.inodes q ≡ s.inodes q
    fsnodes : (q : Ptr) → s'.fsnodes q ≡ s.fsnodes q
    other_tags : (q : Ptr) → q ≢ s.brk → s'.tags q ≡ s.tags q
    other_cnodes : (q : Ptr) → q ≢ c → s'.cnodes q ≡ s.cnodes q

  detach-run :
      (s : State) (dir dentry c fs : Ptr) (cn : Cnode)
      → s.cnodes c ≡ some cn
      → u.find (by_ptr fs) cn.ci_tags ≡ null
      → 0 < s.avail
      → 0 < s.brk
      → (s' : State) × (detach dir dentry c fs s ≡ ret success s') × Whiteout s s' c fs cn
  unfolding detach
  detach-run s dir dentry c fs cn at absent room pos = (
    left_by s (detach dir dentry c fs s),
    ground arith,
    record {
      tags = ground arith;
      cnodes = ground arith;
      inodes = λ q. ground arith;
      fsnodes = λ q. ground arith;
      other_tags = λ q other. ground arith;
      other_cnodes = λ q other. ground arith;
    },
  )

  pub stamp-run :
      (s : State) (p dir : Ptr) (i di : Inode)
      → s.inodes p ≡ some i
      → s.inodes dir ≡ some di
      → (s' : State) × (stamp p dir s ≡ ret tt s')
        × ((q : Ptr) → s'.tags q ≡ s.tags q)
        × ((q : Ptr) → s'.cnodes q ≡ s.cnodes q)
        × ((q : Ptr) → s'.fsnodes q ≡ s.fsnodes q)
  unfolding stamp
  stamp-run s p dir i di at at_dir = (
    left_by s (stamp p dir s),
    ground arith,
    λ q. ground arith,
    λ q. ground arith,
    λ q. ground arith,
  )

  module _ (s : State) (dir dentry : Ptr) (e : Entry s dir dentry) (f : Fsnode)
      (absent : u.find (by_ptr e.entry.d_fsdata) e.cnode.ci_tags ≡ null)
      (is : IsTable e.cnode.ci_tags) (at_fs : s.fsnodes e.entry.d_fsdata ≡ some f)
      (low : e.entry.d_fsdata ≢ meta_fs) (room : 0 < s.avail) (pos : 0 < s.brk) where
    find_tag :
        (fs : Ptr)
        → u.find (by_ptr fs) (u.add (by_ptr e.entry.d_fsdata) s.brk e.cnode.ci_tags)
          ≡ (if e.entry.d_fsdata == fs then s.brk else u.find (by_ptr fs) e.cnode.ci_tags)
    find_tag fs =
        find-add (by_ptr e.entry.d_fsdata) (by_ptr fs) s.brk e.cnode.ci_tags is absent (omega arith)

    after : Cnode
    after = record e.cnode { ci_tags = u.add (by_ptr e.entry.d_fsdata) s.brk e.cnode.ci_tags }

    own_tag : u.find (by_ptr e.entry.d_fsdata) after.ci_tags ≡ s.brk
    unfolding after
    own_tag = find_tag e.entry.d_fsdata ∙ rw (key_eq_refl (by_ptr e.entry.d_fsdata))

    unlink-run :
        (s' : State) × (cinq_unlink dir dentry s ≡ ret success s')
        × (s'.tags s.brk
            ≡ some (record (blank_tag e.entry.d_fsdata null cinq_visible) { t_host = e.child }))
        × (s'.cnodes e.child ≡ some after)
        × ((q : Ptr) → s'.fsnodes q ≡ s.fsnodes q)
        × ((q : Ptr) → q ≢ s.brk → s'.tags q ≡ s.tags q)
        × ((q : Ptr) → q ≢ e.child → s'.cnodes q ≡ s.cnodes q)
    unfolding cinq_unlink i_cnode cnode_find_child after
    unlink-run =
        let (s1, ran1, g) =
          detach-run s dir dentry e.child e.entry.d_fsdata e.cnode e.at_child absent room pos in
        let (s2, ran2, tags, cnodes, fsnodes) =
          stamp-run s1 e.entry.d_inode dir e.inode e.dir_inode
            (g.inodes e.entry.d_inode ∙ e.at_inode) (g.inodes dir ∙ e.at_dir) in
        let i_ne : (e.entry.d_inode == null) ≡ false = ground (arith, e.inode_ne) in
        let c_ne : (e.child == null) ≡ false = ground (arith, e.child_ne) in
        let r_ne : (e.entry.d_fsdata == null) ≡ false = ground (arith, e.has_request) in
        (
          s2,
          rw (
            e.at_dentry, e.at_dir, e.at_tag, e.at_dir_cnode, e.by_name, i_ne, c_ne, e.at_dentry,
            r_ne, ran1, ran2,
          ),
          tags s.brk ∙ g.tags,
          cnodes e.child ∙ g.cnodes,
          λ q. fsnodes q ∙ g.fsnodes q,
          λ q other. tags q ∙ g.other_tags q other,
          λ q other. cnodes q ∙ g.other_cnodes q other,
        )

    hidden :
        (s' : State) (rounds : ℕ)
        → s'.tags s.brk
          ≡ some (record (blank_tag e.entry.d_fsdata null cinq_visible) { t_host = e.child })
        → s'.cnodes e.child ≡ some after
        → ((q : Ptr) → s'.fsnodes q ≡ s.fsnodes q)
        → cnode_lookup_inode (suc rounds) e.child e.entry.d_fsdata s' ≡ ret null s'
    hidden s' rounds tags cnodes fsnodes =
        lookup-own s' rounds e.child e.entry.d_fsdata after f
          (record (blank_tag e.entry.d_fsdata null cinq_visible) { t_host = e.child }) cnodes
          (fsnodes e.entry.d_fsdata ∙ at_fs) (rw own_tag tags) refl (rw own_tag (omega arith)) low

    pub unlink-Unlinked :
        s.tags s.brk ≡ none
        → (s' : State) × (cinq_unlink dir dentry s ≡ ret success s')
          × Unlinked s s' e.child e.entry.d_fsdata null e.cnode
    unfolding after
    unlink-Unlinked free =
        let (s', ran, tags, cnodes, fsnodes, other_tags, other_cnodes) = unlink-run in
        (
          s',
          ran,
          record {
            after = after;
            hidden = λ rounds. hidden s' rounds tags cnodes fsnodes;
            at_child = cnodes;
            others = λ other apart. find_tag other ∙ rw (key_ne e.entry.d_fsdata other apart) refl;
            children = refl;
            cnodes = other_cnodes;
            fsnodes = fsnodes;
            tags = λ q t at _.
                let ne : q ≢ s.brk = λ same. ground arith in (t, other_tags q ne ∙ at, refl, refl);
          },
        )

  -- cinq_unlink of a name whose cnode has no tag of the file system that makes the request, not
  -- META_FS, where one allocation succeeds, ends with success and no fault: from then on that file
  -- system sees no inode at the cnode, whose table has the new tag for it and leads to the same
  -- tags for all others. No other tag changes, no other cnode, and no file system. The cnode's
  -- table has no key twice in the memory before.
  pub unlink-inherited :
      (s : State) (rounds : ℕ) (dir dentry : Ptr) (e : Entry s dir dentry) (f : Fsnode)
      → u.find (by_ptr e.entry.d_fsdata) e.cnode.ci_tags ≡ null
      → IsTable e.cnode.ci_tags
      → s.fsnodes e.entry.d_fsdata ≡ some f
      → e.entry.d_fsdata ≢ meta_fs
      → 0 < s.avail
      → 0 < s.brk
      → (s' : State) × (after : Cnode) × (cinq_unlink dir dentry s ≡ ret success s')
        × (cnode_lookup_inode (suc rounds) e.child e.entry.d_fsdata s' ≡ ret null s')
        × (s'.cnodes e.child ≡ some after)
        × ((fs : Ptr)
            → u.find (by_ptr fs) after.ci_tags
              ≡ (if e.entry.d_fsdata == fs then s.brk else u.find (by_ptr fs) e.cnode.ci_tags))
        × (after.ci_children ≡ e.cnode.ci_children)
        × ((q : Ptr) → q ≢ s.brk → s'.tags q ≡ s.tags q)
        × ((q : Ptr) → q ≢ e.child → s'.cnodes q ≡ s.cnodes q)
        × ((q : Ptr) → s'.fsnodes q ≡ s.fsnodes q)
  unfolding after
  unlink-inherited s rounds dir dentry e f absent is at_fs low room pos =
      let (s', ran, tags, cnodes, fsnodes, other_tags, other_cnodes) =
        unlink-run s dir dentry e f absent is at_fs low room pos in
      (
        s',
        after s dir dentry e f absent is at_fs low room pos,
        ran,
        hidden s dir dentry e f absent is at_fs low room pos s' rounds tags cnodes fsnodes,
        cnodes,
        find_tag s dir dentry e f absent is at_fs low room pos,
        refl,
        other_tags,
        other_cnodes,
        fsnodes,
      )
