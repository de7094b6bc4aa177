-- ===== src/Super/Mount/Unmount.antt =====
-- A mount, and an unmount of a root with nothing below it.
use cinquain_meta.Common.{
  ℕ, suc, ◌+◌, ◌-◌, ◌<◌, ◌≡◌, ◌≢◌, refl, sym, ap, ◌∙◌, true, false, none, some, [], ◌∷◌, arith,
  ◌==◌, ==_refl, length, ltb, dec32, inc32,
}
use cinquain_meta.Containers.{Ptr, null, by_ptr, without, assoc, Library}
use cinquain_meta.Errno.{ok}
use cinquain_meta.Memory.{State, Inode, Tag, Cnode, Dentry, meta_fs}
use cinquain_meta.Memory.Actions.{ret, left_by, update, for_each}
use cinquain_meta.Dcache.{dget, dput, d_genocide}
use cinquain_meta.Tag.{i_cnode, i_tag, tag_evict, cnode_rm_tag}
use cinquain_meta.Cnode.{cnode_evict_all, cnode_evict}
use cinquain_meta.Fsnode.{fsnode_evict_all}
use cinquain_meta.Journal.{Journal, num_way, empty_journal}
use cinquain_meta.Journal.Queue.{drain_ways-all}
use cinquain_meta.Super.Root.{Rooted, fill_super-Rooted}
use cinquain_meta.Super.Mount.{mount_nodev, cinq_mount, cinq_kill_sb}

module _ ⦃u : Library⦄ where
  dget-Rooted :
      (s : State) (root : Ptr)
      → root ≢ null
      → Rooted s root 1
      → (s' : State) × (dget root s ≡ ret root s') × Rooted s' root 2 × (s'.cfs_table ≡ s.cfs_table)
  unfolding dget inc32
  dget-Rooted s root ne g = (
    left_by s (dget root s),
    ground (arith, g.at_root),
    record {
      entry = record g.entry { d_count = 2 };
      inode = g.inode;
      tag = g.tag;
      cnode = g.cnode;
      at_root = ground (arith, g.at_root, g.counted);
      own_parent = g.own_parent;
      of_meta = g.of_meta;
      counted = refl;
      no_subdirs = g.no_subdirs;
      at_inode = ground (arith, g.at_root, g.at_inode);
      inode_ne = g.inode_ne;
      at_tag = ground (arith, g.at_root, g.at_tag);
      tag_fs = g.tag_fs;
      tag_inode = g.tag_inode;
      tag_ne = g.tag_ne;
      at_cnode = ground (arith, g.at_root, g.at_cnode);
      cnode_parent = g.cnode_parent;
      cnode_tags = g.cnode_tags;
      cnode_children = g.cnode_children;
    },
    ground (arith, g.at_root),
  )

  -- cinq_mount ends with no fault where six allocations succeed: it gives a root with two references,
  -- a journal with no entry, and a table with no file system.
  cinq_mount-Rooted :
      (s : State) (fuel : ℕ)
      → 5 < s.avail
      → 0 < s.brk
      → (s' : State) × (root : Ptr) × (cinq_mount fuel s ≡ ret (ok root, empty_journal) s')
        × Rooted s' root 2
        × (root ≢ null)
        × (s'.cfs_table ≡ [])
  unfolding cinq_mount mount_nodev
  cinq_mount-Rooted s fuel room pos =
      let s0 : State = record s { cfs_table = []; brk = s.brk + 1; avail = s.avail - 1 } in
      let (s1, root, ran, g, ne, table) =
        fill_super-Rooted s0 fuel s.brk (omega arith) (omega arith) in
      let (s2, got, g2, table2) = dget-Rooted s1 root ne g in
      let given : (s.avail == 0) ≡ false = ground arith in
      let low : (s.brk == null) ≡ false = ground arith in
      (s2, root, rw (given, low, ran, got) refl, g2, ne, table2 ∙ table)

  delete_only : (p : Ptr) → p ≢ null → u.delete p ((by_ptr meta_fs, p) ∷ []) ≡ []
  unfolding without assoc
  delete_only p ne = u.delete_lem p ((by_ptr meta_fs, p) ∷ []) (ne, refl, tt) ∙ rw (==_refl p) refl

  -- a cnode with one tag, and with no child
  evict_root-run :
      (s : State) (rounds : ℕ) (c p : Ptr) (cn : Cnode) (t : Tag) (i : Inode)
      → s.cnodes c ≡ some cn
      → cn.ci_children ≡ []
      → cn.ci_tags ≡ (by_ptr meta_fs, p) ∷ []
      → cn.ci_parent ≡ c
      → p ≢ null
      → s.tags p ≡ some t
      → t.t_host ≡ c
      → t.t_inode ≢ null
      → s.inodes t.t_inode ≡ some i
      → (s' : State) × (cnode_evict_all (suc rounds) c s ≡ ret tt s')
        × (s'.cnodes c ≡ none)
        × (s'.tags p ≡ none)
        × (s'.inodes t.t_inode ≡ none)
        × ((q : Ptr) → s'.dentries q ≡ s.dentries q)
  unfolding cnode_evict_all for_each tag_evict cnode_rm_tag cnode_evict
  evict_root-run s rounds c p cn t i at children tags parent ne at_t host inode_ne at_i =
      let no_inode : (t.t_inode == null) ≡ false = ground arith in
      let empty : u.delete p cn.ci_tags ≡ [] = ap (u.delete p) tags ∙ delete_only p ne in
      (
        record s {
          cnodes = update (update s.cnodes c (some (record cn { ci_tags = [] }))) c none;
          tags = update s.tags p none;
          inodes = update s.inodes t.t_inode none;
        },
        rw
            (
              at,
              children,
              at,
              tags,
              at_t,
              no_inode,
              at_i,
              host,
              at,
              empty,
              ==_refl c,
              parent,
              ==_refl c,
              children,
            )
            refl,
        ground arith,
        ground arith,
        ground arith,
        λ q. refl,
      )

  genocide-run :
      (s : State) (rounds : ℕ) (root : Ptr) (d : Dentry)
      → root ≢ null
      → s.dentries root ≡ some d
      → d.d_subdirs ≡ []
      → d.d_count ≡ 2
      → d_genocide (suc (suc rounds)) root s
        ≡ ret tt (record s { dentries = update s.dentries root (some (record d { d_count = 1 })) })
  unfolding d_genocide dput for_each dec32
  genocide-run s rounds root d ne at subdirs count =
      let real : (root == null) ≡ false = ground arith in
      let many : ltb 1 d.d_count ≡ true = ground arith in
      let down : dec32 d.d_count ≡ 1 = ap dec32 count in
      rw (real, at, subdirs, at, many, at, down, subdirs) refl

  evict_all-none :
      (s : State) (rounds : ℕ)
      → s.cfs_table ≡ []
      → fsnode_evict_all (suc rounds) meta_fs s ≡ ret tt s
  unfolding fsnode_evict_all for_each
  evict_all-none s rounds empty = rw (==_refl meta_fs, empty) refl

  -- cinq_kill_sb of a root that was just mounted, without a file system, and with a journal whose lists
  -- are shorter than the fuel, ends with no fault: the root's cnode, tag and inode are freed, and its
  -- dentry is left, with the address of the inode and one reference.
  cinq_kill_sb-Rooted :
      (s : State) (rounds : ℕ) (j : Journal) (root : Ptr) (g : Rooted s root 2)
      → root ≢ null
      → s.cfs_table ≡ []
      → ((w : ℕ) → length (j.list w) < suc (suc rounds))
      → (s' : State) × (cinq_kill_sb (suc (suc rounds)) j root s ≡ ret tt s')
        × (s'.cnodes g.tag.t_host ≡ none)
        × (s'.tags g.inode.i_ino ≡ none)
        × (s'.inodes g.entry.d_inode ≡ none)
        × (s'.dentries root ≡ some (record g.entry { d_count = 1 }))
  unfolding cinq_kill_sb i_cnode i_tag
  cinq_kill_sb-Rooted s rounds j root g ne empty short =
      let (drained, passed, _) =
        drain_ways-all (suc (suc rounds)) j 0 num_way (omega arith) short in
      let real : (root == null) ≡ false = ground arith in
      let s1 : State = record s {
        dentries = update s.dentries root (some (record g.entry { d_count = 1 }));
      } in
      let at : s1.dentries root ≡ some (record g.entry { d_count = 1 }) = ground arith in
      let tags = g.cnode_tags ∙ u.add_lem (by_ptr meta_fs) g.inode.i_ino [] in
      let (s2, ran, no_cnode, no_tag, no_inode, dentries) =
        evict_root-run s1 (suc rounds) g.tag.t_host g.inode.i_ino g.cnode g.tag g.inode g.at_cnode
          g.cnode_children tags g.cnode_parent g.tag_ne g.at_tag refl
          (λ e. g.inode_ne (sym g.tag_inode ∙ e)) (ap s.inodes g.tag_inode ∙ g.at_inode) in
      (
        s2,
        rw
            (
              real,
              passed,
              evict_all-none s (suc rounds) empty,
              genocide-run s rounds root g.entry ne g.at_root g.no_subdirs g.counted,
              at,
              g.at_inode,
              g.at_tag,
            )
            ran,
        no_cnode,
        no_tag,
        ap s2.inodes (sym g.tag_inode) ∙ no_inode,
        dentries root ∙ at,
      )

  -- cinq_mount, where six allocations succeed, then cinq_kill_sb: both end with no fault. The mount
  -- gives a root with two references; the unmount frees its cnode, its tag and its inode, and leaves
  -- its dentry, with the address of the freed inode and one reference.
  pub cinq_mount-cinq_kill_sb :
      (s : State) (rounds : ℕ)
      → 5 < s.avail
      → 0 < s.brk
      → (s1 s2 : State) × (root : Ptr) × (g : Rooted s1 root 2) × (cinq_mount (suc (suc rounds)) s
          ≡ ret (ok root, empty_journal) s1)
        × (cinq_kill_sb (suc (suc rounds)) empty_journal root s1 ≡ ret tt s2)
        × (s2.cnodes g.tag.t_host ≡ none)
        × (s2.tags g.inode.i_ino ≡ none)
        × (s2.inodes g.entry.d_inode ≡ none)
        × (s2.dentries root ≡ some (record g.entry { d_count = 1 }))
  cinq_mount-cinq_kill_sb s rounds room pos =
      let (s1, root, mounted, g, ne, empty) = cinq_mount-Rooted s (suc (suc rounds)) room pos in
      let (s2, killed, no_cnode, no_tag, no_inode, kept) =
        cinq_kill_sb-Rooted s1 rounds empty_journal root g ne empty (λ w. omega arith) in
      (s1, s2, root, g, mounted, killed, no_cnode, no_tag, no_inode, kept)
