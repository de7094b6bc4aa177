-- ===== src/Link/Hard.antt =====
-- cinq_link in a directory of the file system's own.
use cinquain_meta.Common.{
  ℕ, suc, ◌≡◌, ◌≢◌, refl, sym, ap, ◌∙◌, inl, inr, true, false, some, ◌==◌, arith, Bool-cases, inc32,
  List,
}
use cinquain_meta.Containers.{Ptr, null, by_str, Library}
use cinquain_meta.Errno.{success}
use cinquain_meta.Memory.{State, Inode, Tag, Cnode, Dentry, Fsnode, meta_fs}
use cinquain_meta.Memory.Actions.{ret, update}
use cinquain_meta.Vfs.{s_isdir, ihold, inc_nlink}
use cinquain_meta.Dcache.{d_instantiate, dget}
use cinquain_meta.Refs.{local_inc_ref}
use cinquain_meta.Cnode.{cnode_lookup_inode}
use cinquain_meta.Cnode.Nearest.{lookup-own}
use cinquain_meta.Create.{take_request}
use cinquain_meta.Create.Request.{Request, IsFresh}
use cinquain_meta.Link.{cinq_tag_with, cinq_link}
use cinquain_meta.Link.Retag.{CanPlace, cinq_tag_with-Placed}
use cinquain_meta.Link.Linked.{finish-run}

module _ ⦃u : Library⦄ where
  module _ (s : State) (old_dentry dir dentry : Ptr) (o : Dentry) (i : Inode) (pd : Dentry)
      (q : Request s dir dentry) (at_o : s.dentries old_dentry ≡ some o) (p_ne : o.d_inode ≢ null)
      (at_p : s.inodes o.d_inode ≡ some i) (at_parent : s.dentries q.entry.d_parent ≡ some pd)
      (apart : dir ≢ o.d_inode) where
    -- The start of cinq_link: the directory is touched, the inode counts a link and a reference more,
    -- and the dentry has the request of its parent.
    abbrev touched : Inode
    touched = record q.inode { i_mtime = s.now; i_ctime = s.now }

    abbrev linked : Inode
    linked = record i { i_ctime = s.now; i_nlink = inc32 i.i_nlink; i_count = inc32 i.i_count }

    abbrev asked : Dentry
    asked = record q.entry { d_fsdata = pd.d_fsdata }

    abbrev begun : State
    begun = record s {
      inodes =
          update
            (update
              (update (update s.inodes dir (some touched)) o.d_inode
                (some (record i { i_ctime = s.now })))
              o.d_inode (some (record i { i_ctime = s.now; i_nlink = inc32 i.i_nlink })))
            o.d_inode (some linked);
      dentries = update s.dentries dentry (some asked);
    }

    link-run :
        (fuel : ℕ) (s1 s2 s3 s4 : State) (r : Ptr)
        → cinq_tag_with dir dentry o.d_inode begun ≡ ret success s1
        → d_instantiate dentry o.d_inode s1 ≡ ret tt s2
        → dget dentry s2 ≡ ret r s3
        → local_inc_ref fuel dir dentry s3 ≡ ret tt s4
        → cinq_link fuel old_dentry dir dentry s ≡ ret success s4
    unfolding cinq_link inc_nlink ihold take_request
    link-run fuel s1 s2 s3 s4 r ran1 ran2 ran3 ran4 =
        let live : (o.d_inode == null) ≡ false = ground arith in
        let other : (dir == o.d_inode) ≡ false = ground arith in
        let same : (o.d_inode == o.d_inode) ≡ true = ground arith in
        rw
          (
            at_o,
            live,
            q.at_dir,
            other,
            at_p,
            same,
            same,
            q.at_dentry,
            at_parent,
            q.at_dentry,
            rw live at ran1,
            ran2,
            ran3,
            ran4,
          )
          refl

    at_touched : begun.inodes dir ≡ some touched
    at_touched = ground arith

    at_linked : begun.inodes o.d_inode ≡ some linked
    at_linked = ground arith

    at_asked : begun.dentries dentry ≡ some asked
    at_asked = ground arith

    abbrev request : Request begun dir dentry
    request = record {
      inode = touched;
      tag = q.tag;
      cnode = q.cnode;
      entry = asked;
      at_dir = at_touched;
      at_tag = q.at_tag;
      at_cnode = q.at_cnode;
      at_dentry = at_asked;
    }

    begun-IsFresh : IsFresh s → IsFresh begun
    begun-IsFresh fresh = record {
      brk_pos = fresh.brk_pos;
      no_inode = λ x above.
          let d_ne : dir ≢ x = λ e. ground (arith, fresh.no_inode x, q.at_dir) in
          let o_ne : o.d_inode ≢ x = λ e. ground (arith, fresh.no_inode x) in
          ground (arith, fresh.no_inode x);
      no_tag = fresh.no_tag;
      no_cnode = fresh.no_cnode;
    }

    begun-CanPlace :
        (name : List ℕ) (fs : Ptr) → CanPlace s q.cnode name fs → CanPlace begun q.cnode name fs
    begun-CanPlace name fs (inl new) = inl new
    begun-CanPlace name fs (inr (there, cn, at, inl absent)) = inr (there, cn, at, inl absent)
    begun-CanPlace name fs (inr (there, cn, at, inr (own, t, at_t, mine, inl negative))) =
        inr (there, cn, at, inr (own, t, at_t, mine, inl negative))
    begun-CanPlace name fs (inr (there, cn, at, inr (own, t, at_t, mine, inr (j, at_j)))) =
        let j' : (v : Inode) × (begun.inodes t.t_inode ≡ some v) =
          elim (Bool-cases (o.d_inode == t.t_inode)) [
            | inl e ↦ (linked, ground arith)
            | inr e ↦ elim (Bool-cases (dir == t.t_inode)) [
              | inl d ↦ (touched, ground arith)
              | inr d ↦ (j, ground arith)
            ]
          ] in
        inr (there, cn, at, inr (own, t, at_t, mine, inr j'))

    -- cinq_link of a file, in another directory inode whose tag is of the file system that makes
    -- the request, not META_FS, at a name of at most MAX_NAME_LEN bytes without a cnode there and
    -- where two allocations succeed, or at one whose cnode has a tag of the file system or one
    -- allocation succeeds, ends with success and no fault: the file system then sees the inode at
    -- the new name, which the directory has, the dentry has the inode and one reference more, the
    -- inode one link more, and the tag of the directory counts one child more. The memory before
    -- has nothing at the addresses that malloc has not given out, and no key twice in the tables
    -- in use.
    pub cinq_link-cnode_lookup_inode :
        (fuel rounds : ℕ) (f : Fsnode)
        → dentry ≢ null
        → s_isdir i.i_mode ≡ false
        → q.tag.t_fs ≡ pd.d_fsdata
        → IsFresh s
        → CanPlace s q.cnode q.entry.d_name.name pd.d_fsdata
        → s.fsnodes pd.d_fsdata ≡ some f
        → pd.d_fsdata ≢ meta_fs
        → (s' : State) × (child : Ptr) × (dc : Cnode) × (i' : Inode) × (t' : Tag) × (cinq_link fuel
              old_dentry dir dentry s
            ≡ ret success s')
          × (s'.cnodes q.tag.t_host ≡ some dc)
          × (u.find (by_str q.entry.d_name.name) dc.ci_children ≡ child)
          × (cnode_lookup_inode (suc rounds) child pd.d_fsdata s' ≡ ret o.d_inode s')
          × (s'.dentries dentry
              ≡ some (record q.entry {
                d_inode = o.d_inode;
                d_fsdata = pd.d_fsdata;
                d_count = inc32 q.entry.d_count;
              }))
          × (s'.inodes o.d_inode ≡ some i')
          × (i'.i_nlink ≡ inc32 i.i_nlink)
          × (s'.tags q.inode.i_ino ≡ some t')
          × (t'.t_nchild ≡ inc32 q.tag.t_nchild)
    cinq_link-cnode_lookup_inode fuel rounds f d_ne file own fresh can at_fs low =
        let (s1, child, old, ran1, placed, b, _, _, _) =
          cinq_tag_with-Placed begun dir dentry o.d_inode request linked at_linked p_ne
            (begun-IsFresh fresh) (begun-CanPlace _ _ can) in
        let di = b.inodes dir touched at_touched in
        let i1 = b.inodes o.d_inode linked at_linked in
        let dt = b.tags q.inode.i_ino q.tag q.at_tag in
        let at_dt1 : s1.tags di.0.i_ino ≡ some dt.0 = ap s1.tags di.2 ∙ dt.1 in
        let at_d1 : s1.dentries dentry ≡ some asked = b.dentries dentry ∙ at_asked in
        let (s2, s3, s4, ran2, ran3, ran4, g) =
          finish-run s1 fuel dir dentry o.d_inode di.0 i1.0 dt.0 asked di.1 at_dt1 at_d1 i1.1
            (dt.3 ∙ own) (ap s_isdir i1.3 ∙ file) p_ne d_ne apart in
        let (t, at_t, fs, inode) = g.tags _ placed.tag placed.at_tag in
        (
          s4,
          child,
          placed.dir_cnode,
          _,
          _,
          link-run fuel s1 s2 s3 s4 dentry ran1 ran2 ran3 ran4,
          g.cnodes q.tag.t_host ∙ placed.at_dir,
          placed.by_name,
          lookup-own s4 rounds child pd.d_fsdata placed.cnode f t (g.cnodes child ∙ placed.at_child)
                (g.fsnodes pd.d_fsdata ∙ b.fsnodes pd.d_fsdata ∙ at_fs) at_t (fs ∙ placed.of_fs)
                placed.own low
              ∙ ap (λ p. ret p s4) (inode ∙ placed.with_inode),
          g.dentries,
          g.inodes,
          i1.4,
          ap s4.tags (sym di.2) ∙ g.dir_tag,
          ap inc32 dt.4,
        )
