-- ===== src/Create/Steps.antt =====
-- The steps of cinq_mkinode_ one by one: what each leaves in memory.
use cinquain_meta.Common.{
  ℕ, ◌+◌, ◌-◌, ◌<◌, ◌≡◌, ◌≢◌, Option, none, some, List, [], arith, ◌==◌, if◌then◌else◌, inc32,
  length, ◌≤◌,
}
use cinquain_meta.Containers.{Ptr, null, by_ptr, by_str, Library}
use cinquain_meta.Errno.{success}
use cinquain_meta.Memory.{State, Inode, Tag, Cnode, Dentry}
use cinquain_meta.Memory.Actions.{ret, left_by}
use cinquain_meta.Vfs.{init_owner, blank_inode}
use cinquain_meta.Tag.{blank_tag, tag_new}
use cinquain_meta.Cnode.{blank_cnode}
use cinquain_meta.Refs.{cinq_get_inode, with_ops}
use cinquain_meta.Create.{attach_to_new, publish}

-- What cinq_get_inode_ makes in a directory `d`, at time `now`.
abbrev pub made_inode : Inode → ℕ → ℕ → Inode
made_inode d mode now =
    let i = with_ops mode (record (init_owner d mode (blank_inode d.i_sb)) {
      i_atime = now;
      i_mtime = now;
      i_ctime = now;
    }) in
    record i { i_count = 1_000_000_000 }

-- One allocation: the stores but one are as before.
pub record Allocated (s s' : State) : Type 0 where
  pub brk : s'.brk ≡ s.brk + 1
  pub avail : s'.avail ≡ s.avail - 1
  pub now : s'.now ≡ s.now
  pub fsnodes : (q : Ptr) → s'.fsnodes q ≡ s.fsnodes q
  pub dentries : (q : Ptr) → s'.dentries q ≡ s.dentries q

-- cinq_get_inode_ in the directory inode `d`
pub record InodeStep (s s' : State) (d : Inode) (mode : ℕ) : Type 0 where
  pub allocated : Allocated s s'
  pub inodes :
      (q : Ptr) → s'.inodes q ≡ (if s.brk == q then some (made_inode d mode s.now) else s.inodes q)
  pub tags : (q : Ptr) → s'.tags q ≡ s.tags q
  pub cnodes : (q : Ptr) → s'.cnodes q ≡ s.cnodes q

pub get_inode-run :
    (s : State) (dir : Ptr) (mode : ℕ) (d : Inode)
    → s.inodes dir ≡ some d
    → 0 < s.avail
    → 0 < s.brk
    → (s' : State) × (cinq_get_inode dir mode s ≡ ret s.brk s') × InodeStep s s' d mode
unfolding cinq_get_inode
get_inode-run s dir mode d at room pos = (
  left_by s (cinq_get_inode dir mode s),
  ground arith,
  record {
    allocated = ground arith;
    inodes = λ q. ground arith;
    tags = λ q. ground arith;
    cnodes = λ q. ground arith;
  },
)

-- tag_new_ for the inode at `inode`, which is `i`
pub record TagStep (s s' : State) (fs inode : Ptr) (vis : ℕ) (i : Inode) : Type 0 where
  pub allocated : Allocated s s'
  pub inodes :
      (q : Ptr)
      → s'.inodes q ≡ (
          if inode == q
          then some (record i { i_count = inc32 i.i_count; i_ino = s.brk })
          else s.inodes q)
  pub tags :
      (q : Ptr) → s'.tags q ≡ (if s.brk == q then some (blank_tag fs inode vis) else s.tags q)
  pub cnodes : (q : Ptr) → s'.cnodes q ≡ s.cnodes q

pub tag_new-run :
    (s : State) (fs inode : Ptr) (vis : ℕ) (i : Inode)
    → s.inodes inode ≡ some i
    → inode ≢ null
    → 0 < s.avail
    → 0 < s.brk
    → (s' : State) × (tag_new fs inode vis s ≡ ret s.brk s') × TagStep s s' fs inode vis i
unfolding tag_new
tag_new-run s fs inode vis i at ne room pos = (
  left_by s (tag_new fs inode vis s),
  ground arith,
  record {
    allocated = ground arith;
    inodes = λ q. ground arith;
    tags = λ q. ground arith;
    cnodes = λ q. ground arith;
  },
)

-- the tag that an inode names
abbrev pub ino_of : Option Inode → Option Ptr
ino_of none = none
ino_of (some i) = some i.i_ino

-- d_instantiate, the pin, the times and local_inc_ref, in a directory of the file system that
-- makes the request: its inode is `di`, and its tag `dt`
pub record PublishStep (s s' : State) (dentry inode : Ptr) (di : Inode) (dt : Tag) (de : Dentry)
    : Type 0 where
  pub inos : (q : Ptr) → ino_of (s'.inodes q) ≡ ino_of (s.inodes q)
  pub tags :
      (q : Ptr)
      → s'.tags q
        ≡ (if di.i_ino == q then some (record dt { t_nchild = inc32 dt.t_nchild }) else s.tags q)
  pub cnodes : (q : Ptr) → s'.cnodes q ≡ s.cnodes q
  pub fsnodes : (q : Ptr) → s'.fsnodes q ≡ s.fsnodes q
  pub dentries :
      (q : Ptr)
      → s'.dentries q ≡ (
          if dentry == q
          then some (record de { d_inode = inode; d_count = 0x7fff_ffff })
          else s.dentries q)

module _ ⦃u : Library⦄ where
  -- a new cnode with the tag, below `parent`
  pub record ChildStep (s s' : State) (parent : Ptr) (name : List ℕ) (tag : Ptr) (pc : Cnode)
      (t : Tag) : Type 0 where
    pub allocated : Allocated s s'
    pub inodes : (q : Ptr) → s'.inodes q ≡ s.inodes q
    pub tags :
        (q : Ptr) → s'.tags q ≡ (if tag == q then some (record t { t_host = s.brk }) else s.tags q)
    pub cnodes :
        (q : Ptr)
        → s'.cnodes q ≡ (
            if s.brk == q
            then some (record (blank_cnode s.brk name) {
              ci_tags = u.add (by_ptr t.t_fs) tag [];
              ci_parent = parent;
            })
            else if parent == q
            then some (record pc { ci_children = u.add (by_str name) s.brk pc.ci_children })
            else s.cnodes q)

  pub attach_to_new-run :
      (s : State) (parent : Ptr) (name : List ℕ) (tag : Ptr) (pc : Cnode) (t : Tag)
      → s.cnodes parent ≡ some pc
      → s.tags tag ≡ some t
      → s.cnodes s.brk ≡ none
      → 0 < s.avail
      → 0 < s.brk
      → length name ≤ 255
      → (s' : State) × (attach_to_new parent name tag s ≡ ret success s')
        × ChildStep s s' parent name tag pc t
  unfolding attach_to_new
  attach_to_new-run s parent name tag pc t at at_t free room pos short = (
    left_by s (attach_to_new parent name tag s),
    ground arith,
    record {
      allocated = ground arith;
      inodes = λ q. ground arith;
      tags = λ q. ground arith;
      cnodes = λ q. ground arith;
    },
  )

  pub publish-run :
      (s : State) (fuel : ℕ) (dir dentry tag : Ptr) (di i x : Inode) (dt t : Tag) (de : Dentry)
      → s.inodes dir ≡ some di
      → s.tags di.i_ino ≡ some dt
      → s.dentries dentry ≡ some de
      → s.tags tag ≡ some t
      → s.inodes t.t_inode ≡ some i
      → t.t_inode ≢ null
      → s.inodes dt.t_inode ≡ some x
      → dt.t_fs ≡ de.d_fsdata
      → (s' : State) × (publish fuel dir dentry tag s ≡ ret tt s')
        × PublishStep s s' dentry t.t_inode di dt de
  unfolding publish
  publish-run s fuel dir dentry tag di i x dt t de at at_t at_d at_tag at_i ne at_x own = (
    left_by s (publish fuel dir dentry tag s),
    ground arith,
    record {
      inos = λ q. ground arith;
      tags = λ q. ground arith;
      cnodes = λ q. ground arith;
      fsnodes = λ q. ground arith;
      dentries = λ q. ground arith;
    },
  )
