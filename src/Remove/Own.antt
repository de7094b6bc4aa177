-- ===== src/Remove/Own.antt =====
-- cinq_unlink of a name that the file system has a tag of its own for.
use cinquain_meta.Common.{
  ℕ, suc, ◌≡◌, ◌≢◌, refl, sym, ap, ◌∙◌, true, false, some, ◌==◌, arith, dec32, inl, inr, Bool-cases,
}
use cinquain_meta.Containers.{Ptr, null, by_ptr, Library}
use cinquain_meta.Errno.{success}
use cinquain_meta.Memory.{State, Inode, Tag, Dentry, Fsnode, meta_fs}
use cinquain_meta.Memory.Actions.{ret, update}
use cinquain_meta.Vfs.{s_isdir, iput}
use cinquain_meta.Refs.{local_drop_ref}
use cinquain_meta.Tag.{i_cnode, i_tag, tag_drop_inode, drop_nchild}
use cinquain_meta.Cnode.{cnode_find_child, cnode_lookup_inode}
use cinquain_meta.Cnode.Nearest.{lookup-own}
use cinquain_meta.Remove.{cinq_unlink, detach}
use cinquain_meta.Remove.Unlink.{Entry, Unlinked, stamp-run}

pub tag_drop_inode-run :
    (s : State) (tag : Ptr) (t : Tag) (i : Inode)
    → s.tags tag ≡ some t
    → t.t_inode ≢ null
    → s.inodes t.t_inode ≡ some i
    → tag_drop_inode tag s
      ≡ ret tt (record s {
        inodes = update s.inodes t.t_inode (some (record i { i_count = dec32 i.i_count }));
        tags = update s.tags tag (some (record t { t_inode = null }));
      })
unfolding tag_drop_inode iput
tag_drop_inode-run s tag t i at_t ne at_i =
    let live : (t.t_inode == null) ≡ false = ground arith in rw (at_t, live, at_i, at_t) refl

-- in a directory of the file system's own, of an inode that is no directory
local_drop_ref-run :
    ⦃u : Library⦄ (s : State) (dir dentry : Ptr) (di i : Inode) (dt : Tag) (d : Dentry)
    → s.inodes dir ≡ some di
    → s.tags di.i_ino ≡ some dt
    → s.dentries dentry ≡ some d
    → dt.t_fs ≡ d.d_fsdata
    → s.inodes d.d_inode ≡ some i
    → s_isdir i.i_mode ≡ false
    → local_drop_ref dir dentry s
      ≡ ret tt (record s {
        tags = update s.tags di.i_ino (some (record dt { t_nchild = dec32 dt.t_nchild }));
      })
unfolding local_drop_ref i_tag drop_nchild
local_drop_ref-run s dir dentry di i dt d at_dir at_dt at_d fs at_i file =
    let mine : (dt.t_fs == d.d_fsdata) ≡ true = ground arith in
    rw (at_dir, at_d, at_dt, mine, at_dt, at_i, file) refl

module _ ⦃u : Library⦄ (s : State) (dir dentry : Ptr) (e : Entry s dir dentry) (tag : Ptr) (t : Tag)
    (own : u.find (by_ptr e.entry.d_fsdata) e.cnode.ci_tags ≡ tag) (tag_ne : tag ≢ null)
    (at_own : s.tags tag ≡ some t) (of_fs : t.t_fs ≡ e.entry.d_fsdata)
    (same : t.t_inode ≡ e.entry.d_inode) (dir_fs : e.dir_tag.t_fs ≡ e.entry.d_fsdata)
    (apart : e.dir_inode.i_ino ≢ tag) (file : s_isdir e.inode.i_mode ≡ false)
    (not_dir : dir ≢ e.entry.d_inode) where
  -- detach of a file of the file system's own
  record Detached (s' : State) : Type 0 where
    tags : s'.tags tag ≡ some (record t { t_inode = null })
    parent :
        s'.tags e.dir_inode.i_ino ≡ some (record e.dir_tag { t_nchild = dec32 e.dir_tag.t_nchild })
    cnodes : (q : Ptr) → s'.cnodes q ≡ s.cnodes q
    fsnodes : (q : Ptr) → s'.fsnodes q ≡ s.fsnodes q
    other_tags : (q : Ptr) → q ≢ tag → q ≢ e.dir_inode.i_ino → s'.tags q ≡ s.tags q
    inode : Inode
    at_inode : s'.inodes e.entry.d_inode ≡ some inode
    dir_inode : Inode
    at_dir : s'.inodes dir ≡ some dir_inode

  detach-Detached :
      (s' : State) × (detach dir dentry e.child e.entry.d_fsdata s ≡ ret success s') × Detached s'
  unfolding detach i_tag
  detach-Detached =
      let i' : Inode = record e.inode { i_count = dec32 e.inode.i_count } in
      let t' : Tag = record t { t_inode = null } in
      let dt' : Tag = record e.dir_tag { t_nchild = dec32 e.dir_tag.t_nchild } in
      let s1 : State = record s {
        inodes = update s.inodes t.t_inode (some i');
        tags = update s.tags tag (some t');
      } in
      let real : (tag == null) ≡ false = ground arith in
      let live : (t.t_inode == null) ≡ false = ground (arith, e.inode_ne) in
      let dropped =
        tag_drop_inode-run s tag t e.inode at_own (λ z. e.inode_ne (sym same ∙ z))
          (ap s.inodes same ∙ e.at_inode) in
      let at_dir1 : s1.inodes dir ≡ some e.dir_inode = ground (arith, e.at_dir) in
      let at_dt1 : s1.tags e.dir_inode.i_ino ≡ some e.dir_tag = ground (arith, e.at_tag) in
      let at_i1 : s1.inodes e.entry.d_inode ≡ some i' = ground arith in
      let released =
        local_drop_ref-run s1 dir dentry e.dir_inode i' e.dir_tag e.entry at_dir1 at_dt1 e.at_dentry
          dir_fs at_i1 file in
      (
        record s1 { tags = update s1.tags e.dir_inode.i_ino (some dt') },
        rw (e.at_child, own, real, at_own, live, dropped, released) refl,
        record {
          tags = ground arith;
          parent = ground arith;
          cnodes = λ q. refl;
          fsnodes = λ q. refl;
          other_tags = λ q x y. ground arith;
          inode = i';
          at_inode = at_i1;
          dir_inode = e.dir_inode;
          at_dir = at_dir1;
        },
      )

  unlink-run :
      (s' : State) × (cinq_unlink dir dentry s ≡ ret success s')
      × (s'.tags tag ≡ some (record t { t_inode = null }))
      × (s'.tags e.dir_inode.i_ino
          ≡ some (record e.dir_tag { t_nchild = dec32 e.dir_tag.t_nchild }))
      × ((q : Ptr) → q ≢ tag → q ≢ e.dir_inode.i_ino → s'.tags q ≡ s.tags q)
      × ((q : Ptr) → s'.cnodes q ≡ s.cnodes q)
      × ((q : Ptr) → s'.fsnodes q ≡ s.fsnodes q)
  unfolding cinq_unlink i_cnode i_tag cnode_find_child
  unlink-run =
      let (s1, ran1, g) = detach-Detached in
      let (s2, ran2, tags, cnodes, fsnodes) =
        stamp-run s1 e.entry.d_inode dir g.inode g.dir_inode g.at_inode g.at_dir in
      let i_ne : (e.entry.d_inode == null) ≡ false = ground (arith, e.inode_ne) in
      let c_ne : (e.child == null) ≡ false = ground (arith, e.child_ne) in
      let r_ne : (e.entry.d_fsdata == null) ≡ false = ground (arith, e.has_request) in
      (
        s2,
        rw
            (
              e.at_dentry, e.at_dir, e.at_tag, e.at_dir_cnode, e.by_name, i_ne, c_ne, e.at_dentry,
              r_ne, ran1, ran2,
            )
            refl,
        tags tag ∙ g.tags,
        tags e.dir_inode.i_ino ∙ g.parent,
        λ q x y. tags q ∙ g.other_tags q x y,
        λ q. cnodes q ∙ g.cnodes q,
        λ q. fsnodes q ∙ g.fsnodes q,
      )

  hidden :
      (s' : State) (rounds : ℕ) (f : Fsnode)
      → s.fsnodes e.entry.d_fsdata ≡ some f
      → e.entry.d_fsdata ≢ meta_fs
      → s'.tags tag ≡ some (record t { t_inode = null })
      → ((q : Ptr) → s'.cnodes q ≡ s.cnodes q)
      → ((q : Ptr) → s'.fsnodes q ≡ s.fsnodes q)
      → cnode_lookup_inode (suc rounds) e.child e.entry.d_fsdata s' ≡ ret null s'
  hidden s' rounds f at_fs low tags cnodes fsnodes =
      lookup-own s' rounds e.child e.entry.d_fsdata e.cnode f (record t { t_inode = null })
        (cnodes e.child ∙ e.at_child) (fsnodes e.entry.d_fsdata ∙ at_fs) (rw own tags) of_fs
        (rw own tag_ne) low

  pub unlink_own-Unlinked :
      (f : Fsnode)
      → s.fsnodes e.entry.d_fsdata ≡ some f
      → e.entry.d_fsdata ≢ meta_fs
      → (s' : State) × (cinq_unlink dir dentry s ≡ ret success s')
        × Unlinked s s' e.child e.entry.d_fsdata tag e.cnode
  unlink_own-Unlinked f at_fs low =
      let (s', ran, tags, parent, other_tags, cnodes, fsnodes) = unlink-run in
      (
        s',
        ran,
        record {
          after = e.cnode;
          hidden = λ rounds. hidden s' rounds f at_fs low tags cnodes fsnodes;
          at_child = cnodes e.child ∙ e.at_child;
          others = λ other apart. refl;
          children = refl;
          cnodes = λ q _. cnodes q;
          fsnodes = fsnodes;
          tags = λ q v at other. elim (Bool-cases (q == e.dir_inode.i_ino)) [
            | inl same ↦
                let eq : q ≡ e.dir_inode.i_ino = ground arith in
                let known : e.dir_tag ≡ v = cc (eq, at, e.at_tag) in
                (
                  record e.dir_tag { t_nchild = dec32 e.dir_tag.t_nchild },
                  rw eq parent,
                  ap (λ w. w.t_fs) known,
                  ap (λ w. w.t_inode) known,
                )
            | inr ne ↦ (v, other_tags q other (ground arith) ∙ at, refl, refl)
          ];
        },
      )

  -- cinq_unlink of a name whose cnode has a tag of the file system with the dentry's inode, which is no
  -- directory, in a directory with another tag of the same file system, succeeds with no fault: from
  -- then on the file system sees no inode at the name's cnode, no cnode changes, and the tag of the
  -- directory counts one child less.
  pub unlink_own :
      (rounds : ℕ) (f : Fsnode)
      → s.fsnodes e.entry.d_fsdata ≡ some f
      → e.entry.d_fsdata ≢ meta_fs
      → (s' : State) × (cinq_unlink dir dentry s ≡ ret success s')
        × (cnode_lookup_inode (suc rounds) e.child e.entry.d_fsdata s' ≡ ret null s')
        × ((q : Ptr) → s'.cnodes q ≡ s.cnodes q)
        × (s'.tags e.dir_inode.i_ino
            ≡ some (record e.dir_tag { t_nchild = dec32 e.dir_tag.t_nchild }))
  unlink_own rounds f at_fs low =
      let (s', ran, tags, parent, _, cnodes, fsnodes) = unlink-run in
      (s', ran, hidden s' rounds f at_fs low tags cnodes fsnodes, cnodes, parent)
