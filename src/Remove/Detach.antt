-- ===== src/Remove/Detach.antt =====
-- cinq_unlink of a directory of the file system's own, and the steps of cinq_rmdir around it.
use cinquain_meta.Common.{ℕ, ◌≡◌, ◌≢◌, refl, ap, ◌∙◌, true, false, some, ◌==◌, arith, dec32}
use cinquain_meta.Containers.{Ptr, null, by_ptr, Library}
use cinquain_meta.Errno.{success}
use cinquain_meta.Memory.{State, Inode, Tag, Cnode, Dentry}
use cinquain_meta.Memory.Actions.{ret, update, left_by}
use cinquain_meta.Vfs.{s_isdir, iput, drop_nlink}
use cinquain_meta.Refs.{local_drop_ref}
use cinquain_meta.Tag.{i_cnode, i_fs, i_tag, tag_drop_inode, drop_nchild, cnode_find_tag}
use cinquain_meta.Cnode.{cnode_find_child}
use cinquain_meta.Remove.{cinq_unlink, detach, stamp, cinq_empty_dir, cinq_rmdir}
use cinquain_meta.Remove.Unlink.{Entry}

module _ ⦃u : Library⦄ (s : State) (dir dentry c fs tag ptag p : Ptr) (cn : Cnode) (t dt : Tag)
    (i di : Inode) (d : Dentry) where
  -- What detach leaves of the tags and inodes of a directory and its parent.
  record Dropped (s' : State) : Type 0 where
    tags : s'.tags tag ≡ some (record t { t_inode = null })
    parent_tags : s'.tags ptag ≡ some (record dt { t_nchild = dec32 dt.t_nchild })
    inodes : s'.inodes p ≡ some (record i { i_count = dec32 i.i_count })
    parent_inodes : s'.inodes dir ≡ some (record di { i_nlink = dec32 di.i_nlink })
    cnodes : (q : Ptr) → s'.cnodes q ≡ s.cnodes q
    fsnodes : (q : Ptr) → s'.fsnodes q ≡ s.fsnodes q
    now : s'.now ≡ s.now

  detach-Dropped :
      s.cnodes c ≡ some cn
      → u.find (by_ptr fs) cn.ci_tags ≡ tag
      → tag ≢ null
      → s.tags tag ≡ some t
      → t.t_inode ≡ p
      → p ≢ null
      → s.inodes p ≡ some i
      → s_isdir i.i_mode ≡ true
      → s.inodes dir ≡ some di
      → dir ≢ p
      → di.i_ino ≡ ptag
      → ptag ≢ tag
      → s.tags ptag ≡ some dt
      → dt.t_fs ≡ fs
      → dt.t_inode ≡ dir
      → s.dentries dentry ≡ some d
      → d.d_fsdata ≡ fs
      → d.d_inode ≡ p
      → (s' : State) × (detach dir dentry c fs s ≡ ret success s') × Dropped s'
  unfolding detach cnode_find_tag tag_drop_inode iput local_drop_ref i_tag drop_nchild drop_nlink
  detach-Dropped a b c' d' e f g h j k l m n o q r v w = (
    left_by s (detach dir dentry c fs s),
    ground arith,
    record {
      tags = ground arith;
      parent_tags = ground arith;
      inodes = ground arith;
      parent_inodes = ground arith;
      cnodes = λ x. ground arith;
      fsnodes = λ x. ground arith;
      now = ground arith;
    },
  )

stamp-inodes :
    (s : State) (p dir : Ptr) (i di : Inode)
    → s.inodes p ≡ some i
    → s.inodes dir ≡ some di
    → dir ≢ p
    → (s' : State) × (stamp p dir s ≡ ret tt s')
      × (s'.inodes p ≡ some (record i { i_ctime = s.now }))
      × (s'.inodes dir ≡ some (record di { i_mtime = s.now; i_ctime = s.now }))
      × ((q : Ptr) → s'.tags q ≡ s.tags q)
      × ((q : Ptr) → s'.cnodes q ≡ s.cnodes q)
      × ((q : Ptr) → s'.fsnodes q ≡ s.fsnodes q)
unfolding stamp
stamp-inodes s p dir i di at_p at_dir ne = (
  left_by s (stamp p dir s),
  ground arith,
  ground arith,
  ground arith,
  λ q. ground arith,
  λ q. ground arith,
  λ q. ground arith,
)

module _ ⦃u : Library⦄ where
  -- The name is a directory that the file system has a tag for, in a directory with another tag of
  -- it; the inodes and the tags of both lead to each other.
  pub record OwnDir (s : State) (dir dentry : Ptr) (e : Entry s dir dentry) : Type 0 where
    pub tag : Tag
    pub own : u.find (by_ptr e.entry.d_fsdata) e.cnode.ci_tags ≢ null
    pub at_own : s.tags (u.find (by_ptr e.entry.d_fsdata) e.cnode.ci_tags) ≡ some tag
    pub of_fs : tag.t_fs ≡ e.entry.d_fsdata
    pub same : tag.t_inode ≡ e.entry.d_inode
    pub by_inode : e.inode.i_ino ≡ u.find (by_ptr e.entry.d_fsdata) e.cnode.ci_tags
    pub dir_fs : e.dir_tag.t_fs ≡ e.entry.d_fsdata
    pub dir_same : e.dir_tag.t_inode ≡ dir
    pub apart : e.dir_inode.i_ino ≢ u.find (by_ptr e.entry.d_fsdata) e.cnode.ci_tags
    pub is_dir : s_isdir e.inode.i_mode ≡ true
    pub not_dir : dir ≢ e.entry.d_inode

  module _ (s : State) (dir dentry : Ptr) (e : Entry s dir dentry) (o : OwnDir s dir dentry e) where
    -- what cinq_unlink leaves
    pub record Removed (s' : State) : Type 0 where
      pub tags :
          s'.tags (u.find (by_ptr e.entry.d_fsdata) e.cnode.ci_tags)
          ≡ some (record o.tag { t_inode = null })
      pub parent_tags :
          s'.tags e.dir_inode.i_ino
          ≡ some (record e.dir_tag { t_nchild = dec32 e.dir_tag.t_nchild })
      pub inodes :
          s'.inodes e.entry.d_inode
          ≡ some (record e.inode { i_count = dec32 e.inode.i_count; i_ctime = s.now })
      pub parent_inodes :
          s'.inodes dir
          ≡ some (record e.dir_inode {
            i_nlink = dec32 e.dir_inode.i_nlink;
            i_mtime = s.now;
            i_ctime = s.now;
          })
      pub cnodes : (q : Ptr) → s'.cnodes q ≡ s.cnodes q
      pub fsnodes : (q : Ptr) → s'.fsnodes q ≡ s.fsnodes q

    pub unlink-Removed : (s' : State) × (cinq_unlink dir dentry s ≡ ret success s') × Removed s'
    unfolding cinq_unlink i_cnode i_tag cnode_find_child
    unlink-Removed =
        let (s1, ran1, g) =
          detach-Dropped s dir dentry e.child e.entry.d_fsdata
            (u.find (by_ptr e.entry.d_fsdata) e.cnode.ci_tags) e.dir_inode.i_ino e.entry.d_inode
            e.cnode o.tag e.dir_tag e.inode e.dir_inode e.entry e.at_child refl o.own o.at_own
            o.same e.inode_ne e.at_inode o.is_dir e.at_dir o.not_dir refl o.apart e.at_tag o.dir_fs
            o.dir_same e.at_dentry refl refl in
        let (s2, ran2, inodes, parent_inodes, tags, cnodes, fsnodes) =
          stamp-inodes s1 e.entry.d_inode dir _ _ g.inodes g.parent_inodes o.not_dir in
        let i_ne : (e.entry.d_inode == null) ≡ false = ground (arith, e.inode_ne) in
        let c_ne : (e.child == null) ≡ false = ground (arith, e.child_ne) in
        let r_ne : (e.entry.d_fsdata == null) ≡ false = ground (arith, e.has_request) in
        (
          s2,
          rw
              (
                e.at_dentry, e.at_dir, e.at_tag, e.at_dir_cnode, e.by_name, i_ne, c_ne, e.at_dentry,
                r_ne, ran1, ran2,
              )
              refl,
          record {
            tags = tags _ ∙ g.tags;
            parent_tags = tags _ ∙ g.parent_tags;
            inodes =
                inodes
                ∙ ap (λ n. some (record e.inode { i_count = dec32 e.inode.i_count; i_ctime = n }))
                    g.now;
            parent_inodes =
                parent_inodes
                ∙ ap
                    (λ n. some (record e.dir_inode {
                      i_nlink = dec32 e.dir_inode.i_nlink;
                      i_mtime = n;
                      i_ctime = n;
                    }))
                    g.now;
            cnodes = λ q. cnodes q ∙ g.cnodes q;
            fsnodes = λ q. fsnodes q ∙ g.fsnodes q;
          },
        )

  -- the end of cinq_rmdir, around cinq_unlink
  pub rmdir-run :
      (s s2 : State) (fuel : ℕ) (dir dentry : Ptr) (e : Entry s dir dentry) (dj : Inode)
      → cinq_empty_dir fuel e.child e.entry.d_fsdata s ≡ ret true s
      → i_fs e.entry.d_inode s ≡ ret e.entry.d_fsdata s
      → cinq_unlink dir dentry (record s {
        inodes =
            update s.inodes e.entry.d_inode
              (some (record e.inode { i_nlink = dec32 e.inode.i_nlink }));
      })
        ≡ ret success s2
      → i_fs e.entry.d_inode s2 ≡ ret e.entry.d_fsdata s2
      → s2.inodes dir ≡ some dj
      → cinq_rmdir fuel dir dentry s
        ≡ ret success (record s2 {
          inodes = update s2.inodes dir (some (record dj { i_nlink = dec32 dj.i_nlink }));
        })
  unfolding cinq_rmdir i_cnode i_tag cnode_find_child drop_nlink
  rmdir-run s s2 fuel dir dentry e dj empty first ran second at_dj =
      let r_ne : (e.entry.d_fsdata == null) ≡ false = ground (arith, e.has_request) in
      let same : (e.entry.d_fsdata == e.entry.d_fsdata) ≡ true = ground arith in
      rw
        (
          e.at_dentry, e.at_dentry, r_ne, e.at_dir, e.at_tag, e.at_dir_cnode, e.by_name, empty,
          first, same, e.at_inode, ran, second, same, at_dj,
        )
        refl
