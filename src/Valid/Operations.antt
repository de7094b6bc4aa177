-- ===== src/Valid/Operations.antt =====
-- The operations of cnode.c on names, one by one.
use cinquain_meta.Common.{
  ℕ, ◌≡◌, subst, Bool, true, false, Option, none, some, ◌==◌, arith, if◌then◌else◌, inl, inr, List,
}
use cinquain_meta.Containers.{Ptr, null, Library}
use cinquain_meta.Errno.{Status, success, failure, enospc}
use cinquain_meta.Memory.Actions.{M, pure, skip, ◌>>=◌, ◌>>◌}
use cinquain_meta.Memory.Steady.{
  Post, Steady, steady, Steady-pure, Steady-bind, Steady-if, Steady-dentry_at, Steady-set_inode,
  Steady-set_dentry, Steady-now, Steady-tag_at,
}
use cinquain_meta.Vfs.{iput, drop_nlink}
use cinquain_meta.Tag.{tag_new}
use cinquain_meta.Create.{
  visibility, touch_dir, attach, publish, cinq_mkinode, cinq_create, cinq_mknod, cinq_symlink,
}
use cinquain_meta.Dcache.{d_instantiate, dget}
use cinquain_meta.Refs.{local_inc_ref}
use cinquain_meta.Remove.{cinq_unlink, cinq_rmdir}
use cinquain_meta.Link.{cinq_link, cinq_rename, own_tag, occupied}
use cinquain_meta.Valid.{Kept, Keeps, still-Kept, Keeps-then, Keeps-Steady, Keeps-bind, Keeps-if}
use cinquain_meta.Valid.Tables.{NewTag}
use cinquain_meta.Valid.Attach.{tag_new-NewTag, attach-Kept}
use cinquain_meta.Valid.Names.{Keeps-detach, Keeps-tag_with}
use cinquain_meta.Valid.Counts.{Keeps-inc_ref}
use cinquain_meta.Valid.Quiet.{
  quiet, Steady-i_cnode, Steady-i_fs, Steady-get_inode, Steady-take_request, Steady-default_request,
  Steady-find_child, Steady-empty_dir, Steady-stamp, Steady-drop_nlink, Steady-instantiate,
  Steady-dget, Steady-inc_nlink, Steady-ihold, Steady-tag_reset_inode,
}

Steady-touch_dir : (dir : Ptr) → Steady (touch_dir dir)
Steady-touch_dir dir = search (steady)

module _ ⦃u : Library⦄ where
  Keeps-status :
      {A : Type 0} (r : Status) {m : M A} {f : _ → M A}
      → Keeps m
      → ((e : _) → Keeps (f e))
      → Keeps (elim r [ failure e ↦ f e | success ↦ m ])
  Keeps-status success first next = first
  Keeps-status (failure e) first next = next e

  Steady-last : (p : Ptr) (b : Bool) → Steady (if b then drop_nlink p else skip)
  Steady-last p b = Steady-if b (Steady-drop_nlink p) (Steady-pure tt)

  Keeps-publish : (fuel : ℕ) (dir dentry tag : Ptr) → Keeps (publish fuel dir dentry tag)
  unfolding publish
  Keeps-publish fuel dir dentry tag = Keeps-bind (Keeps-Steady (Steady-tag_at tag)) (λ t.
      Keeps-bind (Keeps-Steady (Steady-instantiate dentry t.t_inode)) (λ _.
        Keeps-bind (Keeps-Steady (Steady-set_dentry dentry _)) (λ _.
          Keeps-bind (Keeps-Steady (Steady-touch_dir dir)) (λ _. Keeps-inc_ref fuel dir dentry))))

  -- cinq_mkinode_, from the new tag on
  Keeps-named :
      (fuel : ℕ) (dir dentry parent inode : Ptr) (name : List ℕ) (fs : Ptr) (mode : ℕ)
      → Keeps (do
        tag ← tag_new fs inode mode
        if tag == null then (do iput inode; pure (failure enospc)) else do
          r ← attach parent name fs tag
          elim r [
            | failure e ↦ pure (failure e)
            | success ↦ do publish fuel dir dentry tag; pure success
          ])
  Keeps-named fuel dir dentry parent inode name fs mode = record {
    keeps = λ s v.
        Keeps-then (NewTag fs s) s (tag_new fs inode mode s) _ (tag_new-NewTag s fs inode mode v)
          (λ tag s1 made.
            let g = still-Kept s s1 v made.still in
            (
              g,
              elim made.tag [
                | inl z ↦
                    let e : (tag == null) ≡ true = ground arith in
                    let m : Steady (do iput inode; pure (failure enospc)) = search (quiet) in
                    rw e ((Keeps-Steady m).keeps s1 g.valid)
                | inr (ne, t, at_t, of_fs) ↦
                    let e : (tag == null) ≡ false = ground arith in
                    rw e (
                      Keeps-then (λ a s2. Kept s1 s2) s1 (attach parent name fs tag s1) _
                        (subst (λ f. Post (λ a s2. Kept s1 s2) (attach parent name f tag s1)) of_fs
                          (attach-Kept s1 tag t g.valid at_t ne parent name))
                        (λ r s2 h. (
                          h,
                          (Keeps-status r
                                (Keeps-bind (Keeps-publish fuel dir dentry tag)
                                  (λ _. Keeps-Steady (Steady-pure success)))
                                (λ e. Keeps-Steady (Steady-pure (failure e)))).keeps
                              s2 h.valid,
                        )))
              ],
            ));
  }

  pub Keeps-mkinode :
      (fuel : ℕ) (dir dentry : Ptr) (mode : ℕ) → Keeps (cinq_mkinode fuel dir dentry mode)
  unfolding cinq_mkinode
  Keeps-mkinode fuel dir dentry mode = Keeps-bind (Keeps-Steady (Steady-i_cnode dir)) (λ parent.
      Keeps-bind (Keeps-Steady (Steady-dentry_at dentry)) (λ d.
        Keeps-if _ (Keeps-Steady (Steady-pure _)) (
          Keeps-bind (Keeps-Steady (Steady-get_inode dir mode)) (λ inode.
            Keeps-if (inode == null) (Keeps-Steady (Steady-pure _)) (
              Keeps-named fuel dir dentry parent inode d.d_name.name d.d_fsdata
                (visibility mode))))))

  pub Keeps-create :
      (fuel : ℕ) (dir dentry : Ptr) (mode : ℕ) (from : Option Ptr)
      → Keeps (cinq_create fuel dir dentry mode from)
  unfolding cinq_create
  Keeps-create fuel dir dentry mode from =
      Keeps-bind (Keeps-Steady (Steady-take_request dentry from)) (λ fs.
        Keeps-if (fs == null) (Keeps-Steady (Steady-pure _)) (Keeps-mkinode fuel dir dentry _))

  pub Keeps-mknod :
      (fuel : ℕ) (dir dentry : Ptr) (mode : ℕ) → Keeps (cinq_mknod fuel dir dentry mode)
  unfolding cinq_mknod
  Keeps-mknod fuel dir dentry mode =
      Keeps-bind (Keeps-Steady (Steady-take_request dentry none)) (λ fs.
        Keeps-if (fs == null) (Keeps-Steady (Steady-pure _)) (Keeps-mkinode fuel dir dentry _))

  pub Keeps-symlink :
      (fuel : ℕ) (dir dentry : Ptr) (name : List ℕ) → Keeps (cinq_symlink fuel dir dentry name)
  unfolding cinq_symlink
  Keeps-symlink fuel dir dentry name =
      Keeps-bind (Keeps-Steady (Steady-take_request dentry none)) (λ fs.
        Keeps-if (fs == null) (Keeps-Steady (Steady-pure _)) (
          Keeps-bind (Keeps-mkinode fuel dir dentry _) (λ r.
            Keeps-status r (Keeps-Steady (search (quiet) depth 12))
              (λ e. Keeps-Steady (Steady-pure _)))))

  pub Keeps-unlink : (dir dentry : Ptr) → Keeps (cinq_unlink dir dentry)
  unfolding cinq_unlink
  Keeps-unlink dir dentry = Keeps-bind (Keeps-Steady (Steady-dentry_at dentry)) (λ d.
      Keeps-bind (Keeps-Steady (Steady-i_cnode dir)) (λ parent.
        Keeps-bind (Keeps-Steady (Steady-find_child parent d.d_name.name)) (λ c.
          Keeps-if _ (Keeps-Steady (Steady-pure _)) (
            Keeps-bind (Keeps-Steady (Steady-default_request dentry)) (λ fs.
              Keeps-bind (Keeps-detach dir dentry c fs) (λ r.
                Keeps-status r
                  (Keeps-Steady (Steady-bind (Steady-stamp d.d_inode dir) (λ _. Steady-pure _)))
                  (λ e. Keeps-Steady (Steady-pure _))))))))

  pub Keeps-rmdir : (fuel : ℕ) (dir dentry : Ptr) → Keeps (cinq_rmdir fuel dir dentry)
  unfolding cinq_rmdir
  Keeps-rmdir fuel dir dentry = Keeps-bind (Keeps-Steady (Steady-dentry_at dentry)) (λ d.
      Keeps-bind (Keeps-Steady (Steady-default_request dentry)) (λ req_fs.
        Keeps-bind (Keeps-Steady (Steady-i_cnode dir)) (λ parent.
          Keeps-bind (Keeps-Steady (Steady-find_child parent d.d_name.name)) (λ c.
            Keeps-bind (Keeps-Steady (Steady-empty_dir fuel c req_fs)) (λ empty.
              Keeps-if _ (Keeps-Steady (Steady-pure _)) (
                Keeps-bind (Keeps-Steady (Steady-i_fs d.d_inode)) (λ fs.
                  Keeps-bind (Keeps-Steady (Steady-last d.d_inode (fs == req_fs))) (λ _.
                    Keeps-bind (Keeps-unlink dir dentry) (λ r.
                      Keeps-status r
                        (Keeps-Steady (
                          Steady-bind (Steady-i_fs d.d_inode) (λ after.
                            Steady-bind (Steady-last dir (after == req_fs)) (λ _. Steady-pure _))))
                        (λ e. Keeps-Steady (Steady-pure _)))))))))))

  Keeps-linked :
      (fuel : ℕ) (dir dentry inode : Ptr)
      → Keeps
          (do d_instantiate dentry inode; dget dentry; local_inc_ref fuel dir dentry; pure success)
  Keeps-linked fuel dir dentry inode =
      Keeps-bind (Keeps-Steady (Steady-instantiate dentry inode)) (λ _.
        Keeps-bind (Keeps-Steady (Steady-dget dentry)) (λ _.
          Keeps-bind (Keeps-inc_ref fuel dir dentry) (λ _. Keeps-Steady (Steady-pure success))))

  Keeps-removed : (dir dentry : Ptr) → Keeps (do cinq_unlink dir dentry; pure success)
  Keeps-removed dir dentry =
      Keeps-bind (Keeps-unlink dir dentry) (λ _. Keeps-Steady (Steady-pure success))

  pub Keeps-link :
      (fuel : ℕ) (old_dentry dir dentry : Ptr) → Keeps (cinq_link fuel old_dentry dir dentry)
  unfolding cinq_link
  Keeps-link fuel old_dentry dir dentry =
      Keeps-bind (Keeps-Steady (Steady-dentry_at old_dentry)) (λ o.
        Keeps-if (o.d_inode == null) (Keeps-Steady (Steady-pure _)) (
          Keeps-bind (Keeps-Steady Steady-now) (λ now.
            Keeps-bind (Keeps-Steady (Steady-touch_dir dir)) (λ _.
              Keeps-bind (Keeps-Steady (Steady-set_inode o.d_inode _)) (λ _.
                Keeps-bind (Keeps-Steady (Steady-inc_nlink o.d_inode)) (λ _.
                  Keeps-bind (Keeps-Steady (Steady-ihold o.d_inode)) (λ _.
                    Keeps-bind (Keeps-Steady (Steady-take_request dentry none)) (λ _.
                      Keeps-bind (Keeps-tag_with dir dentry o.d_inode) (λ r.
                        Keeps-status r (Keeps-linked fuel dir dentry o.d_inode)
                          (λ e. Keeps-Steady (search (quiet))))))))))))

  Steady-own_tag : (inode fs : Ptr) → Steady (own_tag inode fs)
  unfolding own_tag
  Steady-own_tag inode fs = search (quiet) depth 12

  Steady-occupied : (fuel : ℕ) (inode fs : Ptr) → Steady (occupied fuel inode fs)
  unfolding occupied
  Steady-occupied fuel inode fs = search (quiet, Steady-empty_dir) depth 12

  Keeps-option :
      {A B : Type 0} (o : Option A) {n : M B} {f : A → M B}
      → Keeps n
      → ((a : A) → Keeps (f a))
      → Keeps (elim o [ none ↦ n | some a ↦ f a ])
  Keeps-option none first next = first
  Keeps-option (some a) first next = next a

  pub Keeps-rename :
      (fuel : ℕ) (old_dir old_dentry new_dir new_dentry : Ptr)
      → Keeps (cinq_rename fuel old_dir old_dentry new_dir new_dentry)
  unfolding cinq_rename
  Keeps-rename fuel old_dir old_dentry new_dir new_dentry =
      Keeps-bind (Keeps-Steady (Steady-dentry_at new_dentry)) (λ n.
        Keeps-bind (Keeps-Steady (Steady-dentry_at old_dentry)) (λ o.
          Keeps-bind (Keeps-Steady (Steady-set_dentry new_dentry _)) (λ _.
            Keeps-if (o.d_fsdata == null) (Keeps-Steady (Steady-pure _)) (
              Keeps-bind (Keeps-Steady (Steady-own_tag n.d_inode o.d_fsdata)) (λ target.
                Keeps-option target
                  (Keeps-bind (Keeps-tag_with new_dir new_dentry o.d_inode)
                    (λ _. Keeps-removed old_dir old_dentry))
                  (λ tag.
                    Keeps-bind (Keeps-Steady (Steady-occupied fuel n.d_inode o.d_fsdata)) (λ full.
                      Keeps-if full (Keeps-Steady (Steady-pure _)) (
                        Keeps-bind (Keeps-Steady (Steady-tag_reset_inode tag o.d_inode))
                          (λ _. Keeps-removed old_dir old_dentry)))))))))
