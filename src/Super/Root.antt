-- ===== src/Super/Root.antt =====
-- The memory after cinq_fill_super_: the root of all directories.
use cinquain_meta.Common.{
  ℕ, ◌+◌, ◌-◌, ◌<◌, ◌≡◌, ◌≢◌, refl, true, false, some, [], ◌∷◌, arith, ◌==◌, ◌∙◌, ==_refl, sym, ap,
}
use cinquain_meta.Containers.{Ptr, null, by_ptr, Library}
use cinquain_meta.Memory.{State, Inode, Tag, Cnode, Dentry, meta_fs}
use cinquain_meta.Memory.Actions.{ret, left_by, update}
use cinquain_meta.Tag.{inode_meta_root, i_cnode, blank_tag, cinq_invisible}
use cinquain_meta.Cnode.{blank_cnode}
use cinquain_meta.Create.Steps.{ino_of}
use cinquain_meta.Refs.{cnode_make_tree}
use cinquain_meta.Super.{d_alloc_root, fill_super}

module _ ⦃u : Library⦄ where
  -- cnode_make_tree: the cnode at s.brk, its inode and the tag after it
  record TreeStep (s s' : State) : Type 0 where
    brk : s'.brk ≡ s.brk + 3
    avail : s'.avail ≡ s.avail - 3
    table : s'.cfs_table ≡ s.cfs_table
    ino : ino_of (s'.inodes (s.brk + 1)) ≡ some (s.brk + 2)
    at_tag :
        s'.tags (s.brk + 2)
        ≡ some (record (blank_tag meta_fs (s.brk + 1) cinq_invisible) { t_host = s.brk })
    at_cnode :
        s'.cnodes s.brk
        ≡ some (record (blank_cnode s.brk (0x2f ∷ [])) {
          ci_parent = s.brk;
          ci_tags = u.add (by_ptr meta_fs) (s.brk + 2) [];
        })

  make_tree-run :
      (s : State) (sb : Ptr)
      → 2 < s.avail
      → 0 < s.brk
      → (s' : State) × (cnode_make_tree sb s ≡ ret (s.brk + 1) s') × TreeStep s s'
  unfolding cnode_make_tree
  make_tree-run s sb room pos = (
    left_by s (cnode_make_tree sb s),
    ground arith,
    record {
      brk = ground arith;
      avail = ground arith;
      table = ground arith;
      ino = ground arith;
      at_tag = ground arith;
      at_cnode = ground arith;
    },
  )

  -- d_alloc_root: the dentry at s.brk, with the inode
  record RootStep (s s' : State) (inode : Ptr) : Type 0 where
    inos : (q : Ptr) → ino_of (s'.inodes q) ≡ ino_of (s.inodes q)
    tags : (q : Ptr) → s'.tags q ≡ s.tags q
    cnodes : (q : Ptr) → s'.cnodes q ≡ s.cnodes q
    root : Dentry
    at_root : s'.dentries s.brk ≡ some root
    root_inode : root.d_inode ≡ inode
    root_parent : root.d_parent ≡ s.brk
    root_count : root.d_count ≡ 1
    root_subdirs : root.d_subdirs ≡ []
    table : s'.cfs_table ≡ s.cfs_table

  alloc_root-run :
      (s : State) (inode : Ptr) (i : Inode)
      → s.inodes inode ≡ some i
      → inode ≢ null
      → 1 < s.avail
      → 0 < s.brk
      → (s' : State) × (d_alloc_root inode s ≡ ret s.brk s') × RootStep s s' inode
  unfolding d_alloc_root
  alloc_root-run s inode i at ne room pos = (
    left_by s (d_alloc_root inode s),
    ground arith,
    record {
      inos = λ q. ground arith;
      tags = λ q. ground arith;
      cnodes = λ q. ground arith;
      root = record {
        d_parent = s.brk;
        d_name = record { hash = 0; len = 1; name = 0x2f ∷ [] };
        d_inode = inode;
        d_count = 1;
        d_sb = i.i_sb;
        d_fsdata = null;
        d_subdirs = [];
      };
      at_root = ground arith;
      root_inode = refl;
      root_parent = refl;
      root_count = refl;
      root_subdirs = refl;
      table = ground arith;
    },
  )

  live :
      (s : State) (p t : Ptr)
      → ino_of (s.inodes p) ≡ some t
      → (i : Inode) × (s.inodes p ≡ some i) × (i.i_ino ≡ t)
  live s p t h = ground arith

  -- a root with `count` references: its own parent, with a cnode that is its own parent too, and
  -- nothing below them
  pub record Rooted (s : State) (root : Ptr) (count : ℕ) : Type 0 where
    pub entry : Dentry
    pub inode : Inode
    pub tag : Tag
    pub cnode : Cnode
    pub at_root : s.dentries root ≡ some entry
    pub own_parent : entry.d_parent ≡ root
    pub of_meta : entry.d_fsdata ≡ meta_fs
    pub counted : entry.d_count ≡ count
    pub no_subdirs : entry.d_subdirs ≡ []
    pub at_inode : s.inodes entry.d_inode ≡ some inode
    pub inode_ne : entry.d_inode ≢ null
    pub at_tag : s.tags inode.i_ino ≡ some tag
    pub tag_fs : tag.t_fs ≡ meta_fs
    pub tag_inode : tag.t_inode ≡ entry.d_inode
    pub tag_ne : inode.i_ino ≢ null
    pub at_cnode : s.cnodes tag.t_host ≡ some cnode
    pub cnode_parent : cnode.ci_parent ≡ tag.t_host
    pub cnode_tags : cnode.ci_tags ≡ u.add (by_ptr meta_fs) inode.i_ino []
    pub cnode_children : cnode.ci_children ≡ []

  pub fill_super-Rooted :
      (s : State) (fuel : ℕ) (sb : Ptr)
      → 4 < s.avail
      → 0 < s.brk
      → (s' : State) × (root : Ptr) × (fill_super fuel sb s ≡ ret (some root) s')
        × Rooted s' root 1
        × (root ≢ null)
        × (s'.cfs_table ≡ s.cfs_table)
  unfolding fill_super
  fill_super-Rooted s fuel sb room pos =
      let (s1, ran1, g1) = make_tree-run s sb (omega arith) pos in
      let (i, at_i, ino) = live s1 (s.brk + 1) (s.brk + 2) g1.ino in
      let (s2, ran2, g2) =
        alloc_root-run s1 (s.brk + 1) i at_i (omega arith) (omega (arith, g1.avail))
          (omega (arith, g1.brk)) in
      let (j, at_j, jno) = live s2 (s.brk + 1) (s.brk + 2) (g2.inos (s.brk + 1) ∙ g1.ino) in
      let inode_ne : (s.brk + 1 == null) ≡ false = ground arith in
      let root_ne : (s1.brk == null) ≡ false = ground (arith, g1.brk) in
      let same : g2.root.d_inode ≡ s.brk + 1 = g2.root_inode in
      (
        record s2 {
          dentries = update s2.dentries s1.brk (some (record g2.root { d_fsdata = meta_fs }));
        },
        s1.brk,
        rw (ran1, inode_ne, ran2, root_ne, g2.at_root),
        record {
          entry = record g2.root { d_fsdata = meta_fs };
          inode = j;
          tag = record (blank_tag meta_fs (s.brk + 1) cinq_invisible) { t_host = s.brk };
          cnode = record (blank_cnode s.brk (0x2f ∷ [])) {
            ci_parent = s.brk;
            ci_tags = u.add (by_ptr meta_fs) (s.brk + 2) [];
          };
          at_root = ground arith;
          own_parent = g2.root_parent;
          of_meta = refl;
          counted = g2.root_count;
          no_subdirs = g2.root_subdirs;
          at_inode = ap s2.inodes same ∙ at_j;
          inode_ne = λ e. absurd (omega (arith, same, e));
          at_tag = ap s2.tags jno ∙ g2.tags (s.brk + 2) ∙ g1.at_tag;
          tag_fs = refl;
          tag_inode = sym same;
          tag_ne = λ e. absurd (omega (arith, jno, e));
          at_cnode = g2.cnodes s.brk ∙ g1.at_cnode;
          cnode_parent = refl;
          cnode_tags = ap (λ t. u.add (by_ptr meta_fs) t []) (sym jno);
          cnode_children = refl;
        },
        ground arith,
        g2.table ∙ g1.table,
      )

  -- Where five allocations succeed, cinq_fill_super_ ends with no fault and gives the super block a
  -- root: its own parent, of the file system META_FS, with an inode that inode_meta_root accepts and
  -- whose cnode is its own parent too.
  pub fill_super-inode_meta_root :
      (s : State) (fuel : ℕ) (sb : Ptr)
      → 4 < s.avail
      → 0 < s.brk
      → (s' : State) × (root : Ptr) × (d : Dentry) × (c : Ptr) × (cn : Cnode) × (fill_super fuel sb
            s
          ≡ ret (some root) s')
        × (s'.dentries root ≡ some d)
        × (d.d_parent ≡ root)
        × (d.d_fsdata ≡ meta_fs)
        × (inode_meta_root d.d_inode s' ≡ ret true s')
        × (i_cnode d.d_inode s' ≡ ret c s')
        × (s'.cnodes c ≡ some cn)
        × (cn.ci_parent ≡ c)
  unfolding inode_meta_root i_cnode
  fill_super-inode_meta_root s fuel sb room pos =
      let (s', root, ran, g, _, _) = fill_super-Rooted s fuel sb room pos in
      (
        s',
        root,
        g.entry,
        g.tag.t_host,
        g.cnode,
        ran,
        g.at_root,
        g.own_parent,
        g.of_meta,
        rw (g.at_inode, g.at_tag, g.tag_fs, ==_refl meta_fs) refl,
        rw (g.at_inode, g.at_tag) refl,
        g.at_cnode,
        g.cnode_parent,
      )
