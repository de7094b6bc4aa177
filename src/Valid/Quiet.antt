-- ===== src/Valid/Quiet.antt =====
-- The actions that write no table of a cnode and no file system.
use cinquain_meta.Common.{ℕ, zero, suc, Option, none, some, List, ◌==◌, false}
use cinquain_meta.Containers.{Ptr, null, Library}
use cinquain_meta.Memory.{meta_fs}
use cinquain_meta.Memory.Actions.{M}
use cinquain_meta.Memory.Steady.{
  Steady, steady, Steady-bind, Steady-if, Steady-pure, Steady-malloc, Steady-fsnode_at,
  Steady-tag_at, Still,
}
use cinquain_meta.Vfs.{ihold, iput, inc_nlink, drop_nlink, new_inode}
use cinquain_meta.Dcache.{d_instantiate, dget}
use cinquain_meta.Tag.{
  i_tag, i_fs, i_cnode, inc_nchild, drop_nchild, tag_drop_inode, tag_reset_inode, cnode_find_tag,
}
use cinquain_meta.Cnode.{foreach_ancestor_tag, cnode_find_child, cnode_lookup_inode, return_inode}
use cinquain_meta.Refs.{cinq_get_inode, local_drop_ref}
use cinquain_meta.Create.{take_request}
use cinquain_meta.Remove.{default_request, stamp, cinq_empty_dir, nonzero_nchild}

pub Steady-ihold : (p : Ptr) → Steady (ihold p)
unfolding ihold
Steady-ihold p = search (steady)

pub Steady-iput : (p : Ptr) → Steady (iput p)
unfolding iput
Steady-iput p = search (steady)

pub Steady-inc_nlink : (p : Ptr) → Steady (inc_nlink p)
unfolding inc_nlink
Steady-inc_nlink p = search (steady)

pub Steady-drop_nlink : (p : Ptr) → Steady (drop_nlink p)
unfolding drop_nlink
Steady-drop_nlink p = search (steady)

pub Steady-i_tag : (p : Ptr) → Steady (i_tag p)
unfolding i_tag
Steady-i_tag p = search (steady)

pub Steady-i_fs : (p : Ptr) → Steady (i_fs p)
unfolding i_fs i_tag
Steady-i_fs p = search (steady)

pub Steady-i_cnode : (p : Ptr) → Steady (i_cnode p)
unfolding i_cnode i_tag
Steady-i_cnode p = search (steady)

pub Steady-inc_nchild : (p : Ptr) → Steady (inc_nchild p)
unfolding inc_nchild
Steady-inc_nchild p = search (steady)

pub Steady-drop_nchild : (p : Ptr) → Steady (drop_nchild p)
unfolding drop_nchild
Steady-drop_nchild p = search (steady)

pub Steady-tag_drop_inode : (p : Ptr) → Steady (tag_drop_inode p)
unfolding tag_drop_inode
Steady-tag_drop_inode p = search (steady, Steady-iput)

pub Steady-tag_reset_inode : (p inode : Ptr) → Steady (tag_reset_inode p inode)
unfolding tag_reset_inode
Steady-tag_reset_inode p inode = search (steady, Steady-tag_drop_inode)

pub Steady-new_inode : (sb : Ptr) → Steady (new_inode sb)
unfolding new_inode
Steady-new_inode sb = search (steady)

pub Steady-get_inode : (dir : Ptr) (mode : ℕ) → Steady (cinq_get_inode dir mode)
unfolding cinq_get_inode
Steady-get_inode dir mode = search (steady, Steady-new_inode) depth 12

pub Steady-default_request : (dentry : Ptr) → Steady (default_request dentry)
Steady-default_request dentry = search (steady)

pub Steady-stamp : (inode dir : Ptr) → Steady (stamp inode dir)
unfolding stamp
Steady-stamp inode dir = search (steady)

module _ ⦃u : Library⦄ where
  pub Steady-find_tag : (c fs : Ptr) → Steady (cnode_find_tag c fs)
  unfolding cnode_find_tag
  Steady-find_tag c fs = search (steady)

  pub Steady-find_child : (c : Ptr) (name : List ℕ) → Steady (cnode_find_child c name)
  unfolding cnode_find_child
  Steady-find_child c name = search (steady)

  pub Steady-instantiate : (dentry p : Ptr) → Steady (d_instantiate dentry p)
  unfolding d_instantiate
  Steady-instantiate dentry p = search (steady)

  pub Steady-dget : (dentry : Ptr) → Steady (dget dentry)
  unfolding dget
  Steady-dget dentry = search (steady)

  pub Steady-drop_ref : (dir dentry : Ptr) → Steady (local_drop_ref dir dentry)
  unfolding local_drop_ref
  Steady-drop_ref dir dentry =
      search (steady, Steady-i_tag, Steady-i_cnode, Steady-find_tag) depth 16

  pub Steady-take_request : (dentry : Ptr) (from : Option Ptr) → Steady (take_request dentry from)
  unfolding take_request
  Steady-take_request dentry from = search (steady)

  pub ruleset quiet = (
    steady, Steady-ihold, Steady-iput, Steady-inc_nlink, Steady-drop_nlink, Steady-i_tag,
    Steady-i_fs, Steady-i_cnode, Steady-inc_nchild, Steady-drop_nchild, Steady-tag_drop_inode,
    Steady-tag_reset_inode, Steady-get_inode, Steady-default_request, Steady-stamp, Steady-find_tag,
    Steady-find_child, Steady-instantiate, Steady-dget, Steady-drop_ref, Steady-take_request,
  )

  Steady-option :
      {A B : Type 0} (o : Option A) {n : M B} {f : A → M B}
      → Steady n
      → ((a : A) → Steady (f a))
      → Steady (elim o [ none ↦ n | some a ↦ f a ])
  Steady-option none first next = first
  Steady-option (some a) first next = next a

  pub Steady-foreach :
      {A : Type 0} (fuel : ℕ) (c fs tag : Ptr) (body : Ptr → M (Option A))
      → ((p : Ptr) → Steady (body p))
      → Steady (foreach_ancestor_tag fuel c fs tag body)
  unfolding foreach_ancestor_tag
  Steady-foreach zero c fs tag body each = record { still = λ s. tt }
  Steady-foreach (suc fuel) c fs tag body each = Steady-if (fs == meta_fs) (Steady-pure none) (
      Steady-bind
        (Steady-if (tag == null) (Steady-pure false)
          (Steady-bind (Steady-tag_at tag) (λ t. Steady-pure _)))
        (λ stop. Steady-if stop (Steady-pure none) (
          Steady-bind (each tag) (λ r.
            Steady-option r
              (Steady-bind (Steady-fsnode_at fs) (λ f.
                Steady-bind (Steady-find_tag c f.fs_parent)
                  (λ next. Steady-foreach fuel c f.fs_parent next body each)))
              (λ v. Steady-pure (some v))))))

  pub Steady-lookup_inode : (fuel : ℕ) (c fs : Ptr) → Steady (cnode_lookup_inode fuel c fs)
  unfolding cnode_lookup_inode
  Steady-lookup_inode fuel c fs = Steady-bind (Steady-find_tag c fs) (λ tag.
      Steady-bind (Steady-foreach fuel c fs tag return_inode (λ t. search (steady)))
        (λ r. Steady-pure _))

  pub Steady-empty_dir : (fuel : ℕ) (c fs : Ptr) → Steady (cinq_empty_dir fuel c fs)
  unfolding cinq_empty_dir
  Steady-empty_dir fuel c fs = Steady-bind (Steady-find_tag c fs) (λ tag.
      Steady-bind (Steady-foreach fuel c fs tag nonzero_nchild (λ t. search (steady)))
        (λ r. Steady-pure _))
