-- ===== src/Create/Request.antt =====
-- What cinq_mkinode_ is given, and what it leaves when it succeeds.
use cinquain_meta.Common.{ℕ, ◌≤◌, ◌<◌, ◌≡◌, ◌≢◌, none, some, List}
use cinquain_meta.Containers.{Ptr, null, by_ptr, by_str, Library}
use cinquain_meta.Memory.{State, Inode, Tag, Cnode, Dentry}
use cinquain_meta.Create.Steps.{ino_of}

-- A request in a directory: the inode, its tag, the cnode that holds the names, and the dentry.
pub record Request (s : State) (dir dentry : Ptr) : Type 0 where
  pub inode : Inode
  pub tag : Tag
  pub cnode : Cnode
  pub entry : Dentry
  pub at_dir : s.inodes dir ≡ some inode
  pub at_tag : s.tags inode.i_ino ≡ some tag
  pub at_cnode : s.cnodes tag.t_host ≡ some cnode
  pub at_dentry : s.dentries dentry ≡ some entry

-- Nothing stands at the addresses that malloc has not given out.
pub record IsFresh (s : State) : Type 0 where
  pub brk_pos : 0 < s.brk
  pub no_inode : (p : Ptr) → s.brk ≤ p → s.inodes p ≡ none
  pub no_tag : (p : Ptr) → s.brk ≤ p → s.tags p ≡ none
  pub no_cnode : (p : Ptr) → s.brk ≤ p → s.cnodes p ≡ none

-- In the cnode `parent` the name leads to a cnode, that cnode has a tag of the file system, the tag
-- has the inode, and the pointers back agree.
pub record Named ⦃u : Library⦄ (s : State) (parent : Ptr) (name : List ℕ) (fs inode : Ptr)
    : Type 0 where
  pub parent_cnode : Cnode
  pub child : Ptr
  pub child_cnode : Cnode
  pub tag : Ptr
  pub the_tag : Tag
  pub at_parent : s.cnodes parent ≡ some parent_cnode
  pub by_name : u.find (by_str name) parent_cnode.ci_children ≡ child
  pub child_ne : child ≢ null
  pub at_child : s.cnodes child ≡ some child_cnode
  pub child_name : child_cnode.ci_name ≡ name
  pub child_parent : child_cnode.ci_parent ≡ parent
  pub by_fs : u.find (by_ptr fs) child_cnode.ci_tags ≡ tag
  pub tag_ne : tag ≢ null
  pub at_tag : s.tags tag ≡ some the_tag
  pub tag_fs : the_tag.t_fs ≡ fs
  pub tag_host : the_tag.t_host ≡ child
  pub tag_inode : the_tag.t_inode ≡ inode
  pub inode_tag : ino_of (s.inodes inode) ≡ some tag
