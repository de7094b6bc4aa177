-- ===== src/Valid/Served.antt =====
-- Any sequence of calls on directories.
use cinquain_meta.Common.{ℕ, ◌≡◌, refl, subst, ◌∙◌, false, Option, none, ◌==◌, if◌then◌else◌, List}
use cinquain_meta.Containers.{Ptr, null, Library}
use cinquain_meta.Errno.{Status, Errno, success, failure, einval}
use cinquain_meta.Memory.{State}
use cinquain_meta.Memory.Actions.{M, ret, pure, skip, ◌>>=◌, ◌>>◌}
use cinquain_meta.Memory.Steady.{
  Post, Steady, steady, Steady-pure, Steady-bind, Steady-if, Steady-dentry_at, Steady-inode_at,
  Steady-set_inode,
}
use cinquain_meta.Tag.{inode_meta_root}
use Prim.Native.Nat.{bit_or}
use cinquain_meta.Vfs.{s_ifdir}
use cinquain_meta.Create.{take_request, cinq_mkinode}
use cinquain_meta.Mkdir.{cinq_mkdir}
use cinquain_meta.Fsnode.{cfs_find}
use cinquain_meta.Lookup.{lookup_in, splice, lookup_meta, lookup_plain, cinq_lookup}
use cinquain_meta.Dcache.{d_splice_alias}
use cinquain_meta.Attr.{Iattr, cinq_setsize, cinq_setattr}
use cinquain_meta.Calls.{
  Call, create, lookup, link, unlink, symlink, mkdir, mknod, rmdir, rename, setattr, perform,
}
use cinquain_meta.Valid.{Valid, Kept, Keeps, Keeps-Steady, Keeps-bind, Keeps-if, Keeps-then}
use cinquain_meta.Valid.Operations.{
  Keeps-create, Keeps-mknod, Keeps-symlink, Keeps-mkinode, Keeps-link, Keeps-unlink, Keeps-rmdir,
  Keeps-rename,
}
use cinquain_meta.Valid.Quiet.{quiet, Steady-lookup_inode, Steady-take_request}

-- The call makes no file system and moves none: it is no mkdir in the root of all file systems.
abbrev pub IsPlain : State → Call → Type 0
IsPlain s (mkdir dir dentry mode) = inode_meta_root dir s ≡ ret false s
IsPlain s _ = Unit

module _ ⦃u : Library⦄ where
  -- the memories that calls lead to from `s`
  pub data Served (s : State) : State → Type 0 where
    begun : Served s s
    served :
        (t t' : State) (fuel : ℕ) (c : Call)
        → Served s t
        → IsPlain t c
        → perform fuel c t ≡ ret tt t'
        → Served s t'

  Steady-cfs_find : (name : List ℕ) → Steady (cfs_find name)
  unfolding cfs_find
  Steady-cfs_find name = search (steady)

  Steady-splice : (inode dentry : Ptr) → Steady (splice inode dentry)
  unfolding d_splice_alias
  Steady-splice inode dentry = search (quiet)

  Steady-lookup_in : (fuel : ℕ) (dir : Ptr) (name : List ℕ) → Steady (lookup_in fuel dir name)
  unfolding lookup_in
  Steady-lookup_in fuel dir name = search (quiet, Steady-lookup_inode) depth 20

  Steady-lookup_meta : (dentry : Ptr) → Steady (lookup_meta dentry)
  unfolding lookup_meta
  Steady-lookup_meta dentry = search (quiet, Steady-splice) depth 20

  Steady-lookup_plain :
      (fuel : ℕ) (dir dentry : Ptr) (from : Option Ptr) → Steady (lookup_plain fuel dir dentry from)
  unfolding lookup_plain
  Steady-lookup_plain fuel dir dentry from =
      search (quiet, Steady-splice, Steady-lookup_in) depth 20

  Steady-lookup :
      (fuel : ℕ) (dir dentry : Ptr) (from : Option Ptr) → Steady (cinq_lookup fuel dir dentry from)
  unfolding cinq_lookup inode_meta_root
  Steady-lookup fuel dir dentry from =
      search (quiet, Steady-lookup_meta, Steady-lookup_plain) depth 20

  Steady-setsize : (inode : Ptr) (size : ℕ) → Steady (cinq_setsize inode size)
  unfolding cinq_setsize
  Steady-setsize inode size = search (quiet) depth 20

  Steady-status :
      {A : Type 0} (r : Status) {m : M A} {f : Errno → M A}
      → Steady m
      → ((e : Errno) → Steady (f e))
      → Steady (elim r [ failure e ↦ f e | success ↦ m ])
  Steady-status success first next = first
  Steady-status (failure e) first next = next e

  Steady-setattr : (dentry : Ptr) (attr : Iattr) → Steady (cinq_setattr dentry attr)
  unfolding cinq_setattr
  Steady-setattr dentry attr = Steady-bind (Steady-dentry_at dentry) (λ d.
      Steady-bind (Steady-inode_at d.d_inode) (λ i.
        Steady-bind (Steady-if _ (Steady-setsize d.d_inode attr.ia_size) (Steady-pure success))
          (λ r.
            Steady-status r (Steady-bind (Steady-set_inode d.d_inode _) (λ _. Steady-pure success))
              (λ e. Steady-pure (failure e)))))

  mkdir-Kept :
      (s : State) (fuel : ℕ) (dir dentry : Ptr) (mode : ℕ)
      → Valid s
      → inode_meta_root dir s ≡ ret false s
      → Post (λ a s'. Kept s s') (cinq_mkdir fuel dir dentry mode s)
  unfolding cinq_mkdir
  mkdir-Kept s fuel dir dentry mode v plain =
      let m : Keeps (do
        fs ← take_request dentry none
        if fs == null
            then pure (failure einval)
            else cinq_mkinode fuel dir dentry (bit_or mode s_ifdir)) =
        Keeps-bind (Keeps-Steady (Steady-take_request dentry none)) (λ fs.
          Keeps-if (fs == null) (Keeps-Steady (Steady-pure _))
            (Keeps-mkinode fuel dir dentry (bit_or mode s_ifdir))) in
      rw plain (m.keeps s v)

  done : {A : Type 0} (m : M A) → Keeps m → Keeps (do m; skip)
  done m k = Keeps-bind k (λ _. Keeps-Steady (Steady-pure tt))

  perform-Kept :
      (s : State) (fuel : ℕ) (c : Call)
      → Valid s
      → IsPlain s c
      → Post (λ a s'. Kept s s') (perform fuel c s)
  unfolding perform
  perform-Kept s fuel (create dir dentry mode from) v plain =
      (done _ (Keeps-create fuel dir dentry mode from)).keeps s v
  perform-Kept s fuel (lookup dir dentry from) v plain =
      (done _ (Keeps-Steady (Steady-lookup fuel dir dentry from))).keeps s v
  perform-Kept s fuel (link old_dentry dir dentry) v plain =
      (done _ (Keeps-link fuel old_dentry dir dentry)).keeps s v
  perform-Kept s fuel (unlink dir dentry) v plain = (done _ (Keeps-unlink dir dentry)).keeps s v
  perform-Kept s fuel (symlink dir dentry name) v plain =
      (done _ (Keeps-symlink fuel dir dentry name)).keeps s v
  perform-Kept s fuel (mkdir dir dentry mode) v plain =
      Keeps-then (λ a s'. Kept s s') s (cinq_mkdir fuel dir dentry mode s) (λ _. skip)
        (mkdir-Kept s fuel dir dentry mode v plain)
        (λ a t g. (g, (Keeps-Steady (Steady-pure tt)).keeps t g.valid))
  perform-Kept s fuel (mknod dir dentry mode) v plain =
      (done _ (Keeps-mknod fuel dir dentry mode)).keeps s v
  perform-Kept s fuel (rmdir dir dentry) v plain = (done _ (Keeps-rmdir fuel dir dentry)).keeps s v
  perform-Kept s fuel (rename old_dir old_dentry new_dir new_dentry) v plain =
      (done _ (Keeps-rename fuel old_dir old_dentry new_dir new_dentry)).keeps s v
  perform-Kept s fuel (setattr dentry attr) v plain =
      (done _ (Keeps-Steady (Steady-setattr dentry attr))).keeps s v

  -- Whatever calls the VFS makes on directories, in any order and with any arguments, but for mkdir
  -- in the root of all file systems: where no cnode stands behind malloc's next address, no tag at
  -- NULL, and no table of a cnode has NULL or two elements of the same key, it stays so, and no file
  -- system changes.
  pub Served-Valid :
      (s t : State) → Valid s → Served s t → Valid t × ((q : Ptr) → t.fsnodes q ≡ s.fsnodes q)
  Served-Valid s _ v begun = (v, λ q. refl)
  Served-Valid s _ v (served t t' fuel c before plain ran) =
      let (w, same) = Served-Valid s t v before in
      let g : Kept t t' = subst (Post (λ a s'. Kept t s')) ran (perform-Kept t fuel c w plain) in
      (g.valid, λ q. g.fsnodes q ∙ same q)
