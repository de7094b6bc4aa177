-- ===== src/Create/Found.antt =====
-- What cinq_lookup_ finds after cinq_mkinode_.
use cinquain_meta.Common.{
  ◌⊎◌, inl, inr, ℕ, suc, false, ◌≤◌, ◌<◌, ◌≡◌, ◌≢◌, some, inc32, Option, sym, ap, ◌∙◌, List, ◌==◌,
  arith, length,
}
use cinquain_meta.Containers.{Ptr, null, by_ptr, by_str, Library, IsTable}
use cinquain_meta.Errno.{success}
use cinquain_meta.Memory.{State, Inode, Tag, Cnode, Fsnode, meta_fs}
use cinquain_meta.Memory.Actions.{ret}
use cinquain_meta.Tag.{i_cnode, i_fs}
use cinquain_meta.Cnode.{cnode_find_child}
use cinquain_meta.Cnode.Nearest.{lookup-own}
use cinquain_meta.Lookup.{lookup_in}
use cinquain_meta.Create.{cinq_mkinode}
use cinquain_meta.Create.Steps.{ino_of}
use cinquain_meta.Create.Request.{Request, IsFresh, Named}
use cinquain_meta.Create.Attach.{Vacant}
use cinquain_meta.Create.Over.{DirKept, mkinode_over-run}
use cinquain_meta.Create.Made.{Named-of_steps, mkinode-steps}

module _ ⦃u : Library⦄ where
  pub lookup_in-Named :
      (s : State) (rounds : ℕ) (dir : Ptr) (name : List ℕ) (i : Inode) (t : Tag) (fs inode : Ptr)
      (f : Fsnode)
      → s.inodes dir ≡ some i
      → s.tags i.i_ino ≡ some t
      → t.t_fs ≡ fs
      → Named s t.t_host name fs inode
      → s.fsnodes fs ≡ some f
      → fs ≢ meta_fs
      → fs ≢ null
      → lookup_in (suc rounds) dir name s ≡ ret inode s
  unfolding lookup_in i_cnode i_fs cnode_find_child
  lookup_in-Named s rounds dir name i t fs inode f at_i at_t own n at_fs low ne =
      let c_ne : (n.child == null) ≡ false = ground (arith, n.child_ne) in
      let f_ne : (fs == null) ≡ false = ground arith in
      let tag_ne : u.find (by_ptr fs) n.child_cnode.ci_tags ≢ null = rw n.by_fs n.tag_ne in
      let tag_at : s.tags (u.find (by_ptr fs) n.child_cnode.ci_tags) ≡ some n.the_tag =
        rw n.by_fs n.at_tag in
      let seen =
        lookup-own s rounds n.child fs n.child_cnode f n.the_tag n.at_child at_fs tag_at n.tag_fs
          tag_ne low in
      rw (at_i, at_t, n.at_parent, n.by_name, c_ne, at_i, at_t, own, f_ne, seen, n.tag_inode)

  some_ino :
      (o : Option Inode) (p : Ptr) → ino_of o ≡ some p → (i : Inode) × (o ≡ some i) × (i.i_ino ≡ p)
  some_ino o p h = ground arith

  lookup_in-kept :
      (s s' : State) (rounds : ℕ) (dir : Ptr) (name : List ℕ) (i : Inode) (t : Tag) (fs inode : Ptr)
      (f : Fsnode)
      → DirKept s s' dir i t
      → t.t_fs ≡ fs
      → Named s' t.t_host name fs inode
      → s.fsnodes fs ≡ some f
      → fs ≢ meta_fs
      → fs ≢ null
      → lookup_in (suc rounds) dir name s' ≡ ret inode s'
  lookup_in-kept s s' rounds dir name i t fs inode f k own n at_fs low ne =
      let (i', at_i, ino) = some_ino (s'.inodes dir) i.i_ino k.dir_ino in
      lookup_in-Named s' rounds dir name i' (record t { t_nchild = inc32 t.t_nchild }) fs inode f
        at_i (ap s'.tags ino ∙ k.dir_tag) own n (k.fsnodes fs ∙ at_fs) low ne

  -- what cinq_mkinode_ of a name without a cnode leaves
  new-run :
      (s : State) (fuel : ℕ) (dir dentry : Ptr) (mode : ℕ) (r : Request s dir dentry)
      → IsFresh s
      → 2 < s.avail
      → r.entry.d_name.len ≤ 255
      → length r.entry.d_name.name ≤ 255
      → r.entry.d_fsdata ≡ r.tag.t_fs
      → (x : Inode) × (s.inodes r.tag.t_inode ≡ some x)
      → IsTable r.cnode.ci_children
      → u.find (by_str r.entry.d_name.name) r.cnode.ci_children ≡ null
      → (s' : State) × (cinq_mkinode fuel dir dentry mode s ≡ ret success s')
        × Named s' r.tag.t_host r.entry.d_name.name r.entry.d_fsdata s.brk
        × DirKept s s' dir r.inode r.tag
  new-run s fuel dir dentry mode r fr room short bytes own at_x is absent =
      let (s1, s2, s3, s4, ran, g1, g2, g3, g4) =
        mkinode-steps s fuel dir dentry mode r fr room short bytes own at_x absent in
      let there : s3.inodes dir ≡ some r.inode =
        ground (arith, g3.inodes dir, g2.inodes dir, g1.inodes dir, fr.no_inode dir, r.at_dir) in
      (
        s4,
        ran,
        Named-of_steps mode r fr room s1 s2 s3 s4 g1 g2 g3 g4 is absent,
        record {
          dir_ino = g4.inos dir ∙ ap ino_of there;
          dir_tag = ground (arith, g4.tags r.inode.i_ino);
          fsnodes = λ q.
              g4.fsnodes q
              ∙ g3.allocated.fsnodes q
              ∙ g2.allocated.fsnodes q
              ∙ g1.allocated.fsnodes q;
        },
      )

  -- The name has no cnode, and one can be made; or its cnode has no tag of the file system, or a
  -- negative one.
  abbrev pub CanMake : (s : State) (dir dentry : Ptr) → Request s dir dentry → Type 0
  CanMake s dir dentry r =
      ((u.find (by_str r.entry.d_name.name) r.cnode.ci_children ≡ null)
        × IsTable r.cnode.ci_children
        × (2 < s.avail)
        × (length r.entry.d_name.name ≤ 255))
      ⊎ ((child : Ptr) × (c : Cnode) × (u.find (by_str r.entry.d_name.name) r.cnode.ci_children
            ≡ child)
          × (child ≢ null)
          × (child ≢ r.tag.t_host)
          × (s.cnodes child ≡ some c)
          × (c.ci_name ≡ r.entry.d_name.name)
          × (c.ci_parent ≡ r.tag.t_host)
          × IsTable c.ci_tags
          × Vacant s (u.find (by_ptr r.entry.d_fsdata) c.ci_tags)
          × (1 < s.avail))

  -- Of a name of at most MAX_NAME_LEN bytes, where the directory's tag is of the live file system
  -- that makes the request, not META_FS, and where the name has no cnode there and three
  -- allocations succeed, or a cnode without a tag of that file system, or with a negative one, and
  -- two do: cinq_mkinode_ succeeds with no fault, and in the memory that it leaves cinq_lookup_
  -- finds the new inode at the name. The memory before has nothing at the addresses that malloc
  -- has not given out, and no key twice in the tables in use.
  pub mkinode-lookup :
      (s : State) (fuel rounds : ℕ) (dir dentry : Ptr) (mode : ℕ) (r : Request s dir dentry)
      (f : Fsnode)
      → IsFresh s
      → CanMake s dir dentry r
      → r.entry.d_name.len ≤ 255
      → r.entry.d_fsdata ≡ r.tag.t_fs
      → (x : Inode) × (s.inodes r.tag.t_inode ≡ some x)
      → s.fsnodes r.entry.d_fsdata ≡ some f
      → r.entry.d_fsdata ≢ meta_fs
      → r.entry.d_fsdata ≢ null
      → (s' : State) × (cinq_mkinode fuel dir dentry mode s ≡ ret success s')
        × (lookup_in (suc rounds) dir r.entry.d_name.name s' ≡ ret s.brk s')
  mkinode-lookup s fuel rounds dir dentry mode r f fr (inl (absent, is, room, bytes)) short own at_x
        at_fs low ne =
      let (s', ran, n, k) =
        new-run s fuel dir dentry mode r fr room short bytes own at_x is absent in
      (
        s',
        ran,
        lookup_in-kept s s' rounds dir r.entry.d_name.name r.inode r.tag r.entry.d_fsdata s.brk f k
            (sym own) n at_fs low ne,
      )
  mkinode-lookup s fuel rounds dir dentry mode r f fr
        (inr (child, c, by, child_ne, apart, at_c, named, up, is, free, room)) short own at_x at_fs
        low ne =
      let (s', ran, n, k) =
        mkinode_over-run s fuel dir dentry mode r child c fr room short own at_x by child_ne apart
          at_c named up is free in
      (
        s',
        ran,
        lookup_in-kept s s' rounds dir r.entry.d_name.name r.inode r.tag r.entry.d_fsdata s.brk f k
            (sym own) n at_fs low ne,
      )
