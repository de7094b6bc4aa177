-- ===== src/Link/Linked.antt =====
-- The end of cinq_link: the dentry takes the inode, and the directory counts it.
use cinquain_meta.Common.{
  ℕ, ◌≡◌, ◌≢◌, refl, inl, inr, true, false, some, ◌==◌, arith, Bool-cases, inc32,
}
use cinquain_meta.Containers.{Ptr, null, Library}
use cinquain_meta.Memory.{State, Inode, Tag, Dentry}
use cinquain_meta.Memory.Actions.{ret, update}
use cinquain_meta.Vfs.{s_isdir}
use cinquain_meta.Dcache.{d_instantiate, dget}
use cinquain_meta.Refs.{local_inc_ref}
use cinquain_meta.Tag.{i_tag, inc_nchild}

module _ ⦃u : Library⦄ where
  -- The end of cinq_link, in a directory of the file system's own.
  module _ (s : State) (fuel : ℕ) (dir dentry p : Ptr) (di i : Inode) (dt : Tag) (d : Dentry)
      (at_dir : s.inodes dir ≡ some di) (at_dt : s.tags di.i_ino ≡ some dt)
      (at_d : s.dentries dentry ≡ some d) (at_p : s.inodes p ≡ some i) (mine : dt.t_fs ≡ d.d_fsdata)
      (file : s_isdir i.i_mode ≡ false) (p_ne : p ≢ null) (d_ne : dentry ≢ null)
      (apart : dir ≢ p) where
    named : State
    named = record s {
      inodes = update s.inodes p (some (record i { i_dentry = u.list_add dentry i.i_dentry }));
      dentries = update s.dentries dentry (some (record d { d_inode = p }));
    }

    held : State
    held = record named {
      dentries =
          update named.dentries dentry (some (record d { d_inode = p; d_count = inc32 d.d_count }));
    }

    counted : State
    counted = record held {
      tags = update s.tags di.i_ino (some (record dt { t_nchild = inc32 dt.t_nchild }));
    }

    named-run : d_instantiate dentry p s ≡ ret tt named
    unfolding d_instantiate named
    named-run = let live : (p == null) ≡ false = ground arith in rw (live, at_p, at_d) refl

    held-run : dget dentry named ≡ ret dentry held
    unfolding dget held named
    held-run =
        let live : (dentry == null) ≡ false = ground arith in
        let same : (dentry == dentry) ≡ true = ground arith in rw (live, same) refl

    counted-run : local_inc_ref fuel dir dentry held ≡ ret tt counted
    unfolding local_inc_ref i_tag inc_nchild counted held named
    counted-run =
        let other : (p == dir) ≡ false = ground arith in
        let same : (dentry == dentry) ≡ true = ground arith in
        let here : (p == p) ≡ true = ground arith in
        let own : (dt.t_fs == d.d_fsdata) ≡ true = ground arith in
        rw (other, at_dir, same, at_dt, own, at_dt, here, file) refl

    pub record Finished (s' : State) : Type 0 where
      pub cnodes : (q : Ptr) → s'.cnodes q ≡ s.cnodes q
      pub fsnodes : (q : Ptr) → s'.fsnodes q ≡ s.fsnodes q
      pub tags :
          (q : Ptr) (t : Tag)
          → s.tags q ≡ some t
          → (t' : Tag) × (s'.tags q ≡ some t') × (t'.t_fs ≡ t.t_fs) × (t'.t_inode ≡ t.t_inode)
      pub dir_tag : s'.tags di.i_ino ≡ some (record dt { t_nchild = inc32 dt.t_nchild })
      pub inodes : s'.inodes p ≡ some (record i { i_dentry = u.list_add dentry i.i_dentry })
      pub dentries : s'.dentries dentry ≡ some (record d { d_inode = p; d_count = inc32 d.d_count })

    finish : Finished counted
    unfolding counted held named
    finish = record {
      cnodes = λ q. refl;
      fsnodes = λ q. refl;
      tags = λ q t at. elim (Bool-cases (di.i_ino == q)) [
        | inl e ↦
            (record dt { t_nchild = inc32 dt.t_nchild }, ground arith, ground arith, ground arith)
        | inr e ↦ (t, ground arith, refl, refl)
      ];
      dir_tag = ground arith;
      inodes = ground arith;
      dentries = ground arith;
    }

    pub finish-run :
        (s2 s3 s4 : State) × (d_instantiate dentry p s ≡ ret tt s2)
        × (dget dentry s2 ≡ ret dentry s3)
        × (local_inc_ref fuel dir dentry s3 ≡ ret tt s4)
        × Finished s4
    finish-run = (named, held, counted, named-run, held-run, counted-run, finish)
