-- ===== src/Remove/Dir.antt =====
-- cinq_rmdir of a directory of the file system's own.
use cinquain_meta.Common.{ℕ, suc, ◌<◌, ◌≡◌, ◌≢◌, refl, ◌∙◌, true, some, List, length, arith, dec32}
use cinquain_meta.Containers.{Ptr, null, by_ptr, Library}
use cinquain_meta.Errno.{success}
use cinquain_meta.Memory.{State, Inode, Tag, Fsnode, meta_fs}
use cinquain_meta.Memory.Actions.{ret, update}
use cinquain_meta.Remove.Empty.{TagsOwned, no_children, empty_dir-no_children}
use cinquain_meta.Fsnode.Chain.{parent_of, Chain}
use cinquain_meta.Tag.{i_fs, i_tag}
use cinquain_meta.Cnode.{cnode_lookup_inode}
use cinquain_meta.Cnode.Nearest.{lookup-own, tag_of}
use cinquain_meta.Remove.{cinq_rmdir}
use cinquain_meta.Remove.Unlink.{Entry}
use cinquain_meta.Remove.Detach.{OwnDir, unlink-Removed, rmdir-run}

module _ ⦃u : Library⦄ where
  module _ (s : State) (dir dentry : Ptr) (e : Entry s dir dentry) (o : OwnDir s dir dentry e) where
    -- after the first drop_nlink
    abbrev less : Inode
    less = record e.inode { i_nlink = dec32 e.inode.i_nlink }

    abbrev lowered : State
    lowered = record s { inodes = update s.inodes e.entry.d_inode (some less) }

    at_less : lowered.inodes e.entry.d_inode ≡ some less
    at_less = ground arith

    at_dir_still : lowered.inodes dir ≡ some e.dir_inode
    at_dir_still = ground (arith, e.at_dir, o.not_dir)

    abbrev entry : Entry lowered dir dentry
    entry = record {
      dir_inode = e.dir_inode;
      dir_tag = e.dir_tag;
      dir_cnode = e.dir_cnode;
      entry = e.entry;
      inode = less;
      child = e.child;
      cnode = e.cnode;
      at_dir = at_dir_still;
      at_tag = e.at_tag;
      at_dir_cnode = e.at_dir_cnode;
      at_dentry = e.at_dentry;
      inode_ne = e.inode_ne;
      at_inode = at_less;
      by_name = e.by_name;
      child_ne = e.child_ne;
      at_child = e.at_child;
      has_request = e.has_request;
    }

    abbrev own_dir : OwnDir lowered dir dentry entry
    own_dir = record {
      tag = o.tag;
      own = o.own;
      at_own = o.at_own;
      of_fs = o.of_fs;
      same = o.same;
      by_inode = o.by_inode;
      dir_fs = o.dir_fs;
      dir_same = o.dir_same;
      apart = o.apart;
      is_dir = o.is_dir;
      not_dir = o.not_dir;
    }

    -- i_fs of an inode whose tag is the file system's
    fs_of :
        (s' : State) (i : Inode) (t : Tag)
        → s'.inodes e.entry.d_inode ≡ some i
        → i.i_ino ≡ u.find (by_ptr e.entry.d_fsdata) e.cnode.ci_tags
        → s'.tags (u.find (by_ptr e.entry.d_fsdata) e.cnode.ci_tags) ≡ some t
        → t.t_fs ≡ e.entry.d_fsdata
        → i_fs e.entry.d_inode s' ≡ ret e.entry.d_fsdata s'
    unfolding i_fs i_tag
    fs_of s' i t at_i ino at_t fs = rw (at_i, ino, at_t, fs) refl

    -- cinq_rmdir of a directory of the file system's own, in another one of its own, in which it sees
    -- no counted child, succeeds with no fault: from then on it sees no inode at the name's cnode, the
    -- tag of the parent counts one child less, the inode of the directory has one link and one
    -- reference less, and the inode of the parent two links less.
    pub rmdir_own :
        (fuel rounds : ℕ) (f : Fsnode) (path : List Ptr)
        → Chain (parent_of s) e.entry.d_fsdata path
        → length path < fuel
        → TagsOwned s (tag_of s e.child e.cnode e.at_child)
        → no_children s.tags (tag_of s e.child e.cnode e.at_child) path ≡ true
        → s.fsnodes e.entry.d_fsdata ≡ some f
        → e.entry.d_fsdata ≢ meta_fs
        → (s' : State) × (cinq_rmdir fuel dir dentry s ≡ ret success s')
          × (cnode_lookup_inode (suc rounds) e.child e.entry.d_fsdata s' ≡ ret null s')
          × (s'.tags e.dir_inode.i_ino
              ≡ some (record e.dir_tag { t_nchild = dec32 e.dir_tag.t_nchild }))
          × (s'.inodes e.entry.d_inode
              ≡ some (record e.inode {
                i_nlink = dec32 e.inode.i_nlink;
                i_count = dec32 e.inode.i_count;
                i_ctime = s.now;
              }))
          × (s'.inodes dir
              ≡ some (record e.dir_inode {
                i_nlink = dec32 (dec32 e.dir_inode.i_nlink);
                i_mtime = s.now;
                i_ctime = s.now;
              }))
    rmdir_own fuel rounds f path ch enough tags none_seen at_fs low =
        let empty =
          empty_dir-no_children s e.child e.cnode e.at_child fuel e.entry.d_fsdata path ch enough
            tags
          ∙ rw none_seen refl in
        let (s2, ran, g) = unlink-Removed lowered dir dentry entry own_dir in
        let apart = o.not_dir in
        (
          _,
          rmdir-run s s2 fuel dir dentry e _ empty
              (fs_of s e.inode o.tag e.at_inode o.by_inode o.at_own o.of_fs) ran
              (fs_of s2 _ _ g.inodes o.by_inode g.tags o.of_fs) g.parent_inodes,
          lookup-own _ rounds e.child e.entry.d_fsdata e.cnode f (record o.tag { t_inode = null })
              (g.cnodes e.child ∙ e.at_child) (g.fsnodes e.entry.d_fsdata ∙ at_fs) g.tags o.of_fs
              o.own low,
          g.parent_tags,
          ground (arith, g.inodes),
          ground arith,
        )
