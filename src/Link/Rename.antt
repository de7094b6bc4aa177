-- ===== src/Link/Rename.antt =====
-- cinq_rename to a name at which the file system has no inode of its own.
use cinquain_meta.Common.{
  ℕ, suc, ◌<◌, ◌≡◌, ◌≢◌, refl, subst, sym, ap, ◌∙◌, ◌⊎◌, inl, inr, true, false, some, none, ◌==◌,
  arith, Bool-cases,
}
use cinquain_meta.Containers.{Ptr, null, by_ptr, by_str, Library, IsTable}
use cinquain_meta.Errno.{success}
use cinquain_meta.Memory.{State, Inode, Tag, Cnode, Dentry, Fsnode, meta_fs}
use cinquain_meta.Memory.Actions.{ret, update}
use cinquain_meta.Vfs.{s_isdir}
use cinquain_meta.Tag.{i_tag}
use cinquain_meta.Cnode.{cnode_lookup_inode}
use cinquain_meta.Cnode.Nearest.{lookup-own}
use cinquain_meta.Create.Request.{Request, IsFresh}
use cinquain_meta.Remove.{cinq_unlink}
use cinquain_meta.Remove.Unlink.{Entry, Unlinked, unlink-Unlinked}
use cinquain_meta.Remove.Own.{unlink_own-Unlinked}
use cinquain_meta.Link.{own_tag, cinq_tag_with, cinq_rename}
use cinquain_meta.Link.Place.{Placed, Beside}
use cinquain_meta.Link.Retag.{CanPlace, cinq_tag_with-Placed}

some_eq : {A : Type 0} {x y : A} → some x ≡ some y → x ≡ y
some_eq e = cc

module _ ⦃u : Library⦄ where
  -- The name is a file that the file system has a tag for, in a directory with another tag of it.
  pub record OwnFile (s : State) (dir dentry : Ptr) (e : Entry s dir dentry) : Type 0 where
    pub tag : Tag
    pub own : u.find (by_ptr e.entry.d_fsdata) e.cnode.ci_tags ≢ null
    pub at_own : s.tags (u.find (by_ptr e.entry.d_fsdata) e.cnode.ci_tags) ≡ some tag
    pub of_fs : tag.t_fs ≡ e.entry.d_fsdata
    pub same : tag.t_inode ≡ e.entry.d_inode
    pub dir_fs : e.dir_tag.t_fs ≡ e.entry.d_fsdata
    pub apart : e.dir_inode.i_ino ≢ u.find (by_ptr e.entry.d_fsdata) e.cnode.ci_tags
    pub file : s_isdir e.inode.i_mode ≡ false
    pub not_dir : dir ≢ e.entry.d_inode

  -- The file system has no tag for the name, or it is a file of its own.
  abbrev pub CanHide : (s : State) (dir dentry : Ptr) → Entry s dir dentry → Type 0
  CanHide s dir dentry e =
      ((u.find (by_ptr e.entry.d_fsdata) e.cnode.ci_tags ≡ null) × IsTable e.cnode.ci_tags)
      ⊎ OwnFile s dir dentry e

module _ ⦃u : Library⦄ (s : State) (old_dir old_dentry new_dir new_dentry : Ptr)
    (e : Entry s old_dir old_dentry) (q : Request s new_dir new_dentry)
    (apart : old_dentry ≢ new_dentry) where
  -- the dentry of the new name, and the memory with it, when the request is taken over
  abbrev asked : Dentry
  asked = record q.entry { d_fsdata = e.entry.d_fsdata }

  abbrev taken : State
  taken = record s { dentries = update s.dentries new_dentry (some asked) }

  taken-new : taken.dentries new_dentry ≡ some asked
  taken-new = ground arith

  -- No inode is known at the new name, or one whose tag is another file system's.
  abbrev pub Untaken : Type 0
  Untaken =
      (q.entry.d_inode ≡ null)
      ⊎ ((i : Inode) × (t : Tag) × (s.inodes q.entry.d_inode ≡ some i)
          × (s.tags i.i_ino ≡ some t)
          × (t.t_fs ≢ e.entry.d_fsdata))

  untagged : Untaken → own_tag q.entry.d_inode e.entry.d_fsdata taken ≡ ret none taken
  unfolding own_tag i_tag
  untagged (inl no_inode) = let z : (q.entry.d_inode == null) ≡ true = ground arith in rw z refl
  untagged (inr (i, t, at_i, at_t, other)) = elim (Bool-cases (q.entry.d_inode == null)) [
    | inl z ↦ rw z refl
    | inr live ↦
        let z : (t.t_fs == e.entry.d_fsdata) ≡ false = ground arith in rw (live, at_i, at_t, z) refl
  ]

  rename-run :
      (fuel : ℕ) (s1 s2 : State)
      → Untaken
      → cinq_tag_with new_dir new_dentry e.entry.d_inode taken ≡ ret success s1
      → cinq_unlink old_dir old_dentry s1 ≡ ret success s2
      → cinq_rename fuel old_dir old_dentry new_dir new_dentry s ≡ ret success s2
  unfolding cinq_rename
  rename-run fuel s1 s2 untaken ran1 ran2 =
      let asks : (e.entry.d_fsdata == null) ≡ false = ground (arith, e.has_request) in
      rw (q.at_dentry, e.at_dentry, q.at_dentry, asks, untagged untaken, ran1, ran2) refl

  abbrev request : Request taken new_dir new_dentry
  request = record {
    inode = q.inode;
    tag = q.tag;
    cnode = q.cnode;
    entry = asked;
    at_dir = q.at_dir;
    at_tag = q.at_tag;
    at_cnode = q.at_cnode;
    at_dentry = taken-new;
  }

  taken-old : taken.dentries old_dentry ≡ some e.entry
  taken-old = ground (arith, e.at_dentry)

  module _ (s1 : State) (child old : Ptr) (b : Beside taken s1 child old)
      (other : e.child ≢ child) where
    -- the old name, when the new one has been placed
    abbrev kept : Entry s1 old_dir old_dentry
    kept =
        let di = b.inodes old_dir e.dir_inode e.at_dir in
        let dt = b.tags e.dir_inode.i_ino e.dir_tag e.at_tag in
        let dc = b.cnodes e.dir_tag.t_host e.dir_cnode e.at_dir_cnode in
        let i = b.inodes e.entry.d_inode e.inode e.at_inode in
        let cn = b.cnodes e.child e.cnode e.at_child in
        record {
          dir_inode = di.0;
          dir_tag = dt.0;
          dir_cnode = dc.0;
          entry = e.entry;
          inode = i.0;
          child = e.child;
          cnode = cn.0;
          at_dir = di.1;
          at_tag = ap s1.tags di.2 ∙ dt.1;
          at_dir_cnode = ap s1.cnodes dt.2 ∙ dc.1;
          at_dentry = b.dentries old_dentry ∙ taken-old;
          inode_ne = e.inode_ne;
          at_inode = i.1;
          by_name =
              dc.3 (by_str e.entry.d_name.name) (λ z. e.child_ne (sym e.by_name ∙ z)) ∙ e.by_name;
          child_ne = e.child_ne;
          at_child = cn.1;
          has_request = e.has_request;
        }

    same_tags : kept.cnode.ci_tags ≡ e.cnode.ci_tags
    same_tags = (b.cnodes e.child e.cnode e.at_child).2 other

    same_own :
        u.find (by_ptr e.entry.d_fsdata) kept.cnode.ci_tags
        ≡ u.find (by_ptr e.entry.d_fsdata) e.cnode.ci_tags
    same_own = ap (u.find (by_ptr e.entry.d_fsdata)) same_tags

    hide :
        (f : Fsnode)
        → CanHide s old_dir old_dentry e
        → (u.find (by_ptr e.entry.d_fsdata) e.cnode.ci_tags ≢ null
            → u.find (by_ptr e.entry.d_fsdata) e.cnode.ci_tags ≢ old)
        → s.fsnodes e.entry.d_fsdata ≡ some f
        → e.entry.d_fsdata ≢ meta_fs
        → 0 < s1.avail
        → (s2 : State) × (cinq_unlink old_dir old_dentry s1 ≡ ret success s2)
          × Unlinked s1 s2 e.child e.entry.d_fsdata
              (u.find (by_ptr e.entry.d_fsdata) e.cnode.ci_tags)
              kept.cnode
    hide f (inl (absent, is)) kept_tag at_fs low room =
        let (s2, ran, h) =
          unlink-Unlinked s1 old_dir old_dentry kept f (same_own ∙ absent)
            (subst IsTable (sym same_tags) is) (b.fsnodes e.entry.d_fsdata ∙ at_fs) low room b.low
            b.no_tag in
        (s2, ran, subst (λ p. Unlinked s1 s2 e.child e.entry.d_fsdata p kept.cnode) (sym absent) h)
    hide f (inr o) kept_tag at_fs low room =
        let di = b.inodes old_dir e.dir_inode e.at_dir in
        let dt = b.tags e.dir_inode.i_ino e.dir_tag e.at_tag in
        let i = b.inodes e.entry.d_inode e.inode e.at_inode in
        let t = b.tags (u.find (by_ptr e.entry.d_fsdata) e.cnode.ci_tags) o.tag o.at_own in
        unlink_own-Unlinked s1 old_dir old_dentry kept
          (u.find (by_ptr e.entry.d_fsdata) e.cnode.ci_tags) o.tag same_own o.own
          (t.1 ∙ ap some (t.5 (kept_tag o.own))) o.of_fs o.same (dt.3 ∙ o.dir_fs)
          (λ z. o.apart (sym di.2 ∙ z)) (ap s_isdir i.3 ∙ o.file) o.not_dir f
          (b.fsnodes e.entry.d_fsdata ∙ at_fs) low

    -- what the file system sees at the new name, when the old one is gone
    sees :
        (s2 : State) (rounds : ℕ) (f : Fsnode)
        (placed : Placed s1 q.tag.t_host q.entry.d_name.name e.entry.d_fsdata e.entry.d_inode child)
        → Unlinked s1 s2 e.child e.entry.d_fsdata
            (u.find (by_ptr e.entry.d_fsdata) e.cnode.ci_tags)
            kept.cnode
        → u.find (by_ptr e.entry.d_fsdata) placed.cnode.ci_tags
          ≢ u.find (by_ptr e.entry.d_fsdata) e.cnode.ci_tags
        → s.fsnodes e.entry.d_fsdata ≡ some f
        → e.entry.d_fsdata ≢ meta_fs
        → cnode_lookup_inode (suc rounds) child e.entry.d_fsdata s2 ≡ ret e.entry.d_inode s2
    sees s2 rounds f placed h new at_fs low =
        let (t, at, fs, inode) = h.tags _ placed.tag placed.at_tag new in
        lookup-own s2 rounds child e.entry.d_fsdata placed.cnode f t
          (h.cnodes child (λ z. other (sym z)) ∙ placed.at_child)
          (h.fsnodes e.entry.d_fsdata ∙ b.fsnodes e.entry.d_fsdata ∙ at_fs) at (fs ∙ placed.of_fs)
          placed.own low
        ∙ ap (λ p. ret p s2) (inode ∙ placed.with_inode)

    names :
        (s2 : State)
        (placed : Placed s1 q.tag.t_host q.entry.d_name.name e.entry.d_fsdata e.entry.d_inode child)
        → Unlinked s1 s2 e.child e.entry.d_fsdata
            (u.find (by_ptr e.entry.d_fsdata) e.cnode.ci_tags)
            kept.cnode
        → (dc : Cnode) × (s2.cnodes q.tag.t_host ≡ some dc)
          × (u.find (by_str q.entry.d_name.name) dc.ci_children ≡ child)
    names s2 placed h = elim (Bool-cases (q.tag.t_host == e.child)) [
      | inl e' ↦
          let eq : q.tag.t_host ≡ e.child = ground arith in
          let same : kept.cnode ≡ placed.dir_cnode = cc (kept.at_child, placed.at_dir, eq) in
          (
            h.after,
            ap s2.cnodes eq ∙ h.at_child,
            ap (u.find (by_str q.entry.d_name.name)) (h.children ∙ ap (λ v. v.ci_children) same)
                ∙ placed.by_name,
          )
      | inr ne ↦
          (placed.dir_cnode, h.cnodes q.tag.t_host (ground arith) ∙ placed.at_dir, placed.by_name)
    ]

    -- A tag of another file system is neither the one that takes the new name nor the old name's.
    others_kept :
        (s2 : State) (p : Ptr) (t : Tag)
        → Unlinked s1 s2 e.child e.entry.d_fsdata
            (u.find (by_ptr e.entry.d_fsdata) e.cnode.ci_tags)
            kept.cnode
        → s.tags p ≡ some t
        → p ≢ old
        → p ≢ u.find (by_ptr e.entry.d_fsdata) e.cnode.ci_tags
        → (t' : Tag) × (s2.tags p ≡ some t') × (t'.t_fs ≡ t.t_fs) × (t'.t_inode ≡ t.t_inode)
    others_kept s2 p t h at not_old not_own =
        let (t1, at1, _, _, _, same) = b.tags p t at in
        h.tags p t (at1 ∙ ap some (same not_old)) not_own

  -- the tag that the file system has for the old name, if any, is its own
  not_hidden :
      (p : Ptr) (t : Tag)
      → CanHide s old_dir old_dentry e
      → s.tags p ≡ some t
      → p ≢ null
      → t.t_fs ≢ e.entry.d_fsdata
      → p ≢ u.find (by_ptr e.entry.d_fsdata) e.cnode.ci_tags
  not_hidden p t (inl (absent, _)) at some_p other same = some_p (same ∙ absent)
  not_hidden p t (inr o) at some_p other same =
      other (ap (λ (v : Tag). v.t_fs) (some_eq (sym at ∙ ap s.tags same ∙ o.at_own)) ∙ o.of_fs)

  -- and so is the one at the new name
  not_placed :
      (p : Ptr) (t : Tag) (cn : Cnode)
      → CanPlace s q.cnode q.entry.d_name.name e.entry.d_fsdata
      → s.tags p ≡ some t
      → p ≢ null
      → t.t_fs ≢ e.entry.d_fsdata
      → u.find (by_str q.entry.d_name.name) q.cnode.ci_children ≢ null
      → s.cnodes (u.find (by_str q.entry.d_name.name) q.cnode.ci_children) ≡ some cn
      → p ≢ u.find (by_ptr e.entry.d_fsdata) cn.ci_tags
  not_placed p t cn (inl (absent, _, _, _)) at some_p other there at_cn same = there absent
  not_placed p t cn (inr (_, v, at_v, inl (absent, _, _, _))) at some_p other there at_cn same =
      let eq : cn ≡ v = some_eq (sym at_cn ∙ at_v) in
      some_p (same ∙ ap (λ (c : Cnode). u.find (by_ptr e.entry.d_fsdata) c.ci_tags) eq ∙ absent)
  not_placed p t cn (inr (_, v, at_v, inr (_, w, at_w, mine, _))) at some_p other there at_cn same =
      let eq : cn ≡ v = some_eq (sym at_cn ∙ at_v) in
      let here = same ∙ ap (λ (c : Cnode). u.find (by_ptr e.entry.d_fsdata) c.ci_tags) eq in
      other (ap (λ (x : Tag). x.t_fs) (some_eq (sym at ∙ ap s.tags here ∙ at_w)) ∙ mine)

  -- cinq_rename of a name that the file system, not META_FS, has no tag for, or of a file with a
  -- tag and in a directory of its own, to a name with another cnode and another tag or with none,
  -- at which no inode is known or one whose tag is another file system's, where three allocations
  -- succeed, and a name without a cnode has at most MAX_NAME_LEN bytes, ends with success and no
  -- fault: the file system then sees the inode at the new name, which the new directory has, and
  -- none at the old one, whose table leads to the same tags for all other file systems, and every
  -- tag of another file system, but for one at NULL, keeps its file system and its inode. The
  -- memory before has nothing at the addresses that malloc has not given out, and no key twice in
  -- the tables in use.
  pub cinq_rename-cnode_lookup_inode :
      (fuel rounds : ℕ) (f : Fsnode)
      → Untaken
      → IsFresh s
      → 2 < s.avail
      → CanPlace s q.cnode q.entry.d_name.name e.entry.d_fsdata
      → CanHide s old_dir old_dentry e
      → e.child ≢ u.find (by_str q.entry.d_name.name) q.cnode.ci_children
      → ((cn : Cnode)
          → s.cnodes (u.find (by_str q.entry.d_name.name) q.cnode.ci_children) ≡ some cn
          → u.find (by_ptr e.entry.d_fsdata) e.cnode.ci_tags ≢ null
          → u.find (by_ptr e.entry.d_fsdata) e.cnode.ci_tags
            ≢ u.find (by_ptr e.entry.d_fsdata) cn.ci_tags)
      → s.fsnodes e.entry.d_fsdata ≡ some f
      → e.entry.d_fsdata ≢ meta_fs
      → (s' : State) × (child : Ptr) × (dc : Cnode) × (after : Cnode) × (cinq_rename fuel old_dir
            old_dentry new_dir new_dentry s
          ≡ ret success s')
        × (s'.cnodes q.tag.t_host ≡ some dc)
        × (u.find (by_str q.entry.d_name.name) dc.ci_children ≡ child)
        × (cnode_lookup_inode (suc rounds) child e.entry.d_fsdata s' ≡ ret e.entry.d_inode s')
        × (cnode_lookup_inode (suc rounds) e.child e.entry.d_fsdata s' ≡ ret null s')
        × (s'.cnodes e.child ≡ some after)
        × ((other : Ptr)
            → e.entry.d_fsdata ≢ other
            → u.find (by_ptr other) after.ci_tags ≡ u.find (by_ptr other) e.cnode.ci_tags)
        × ((p : Ptr) (t : Tag)
            → s.tags p ≡ some t
            → p ≢ null
            → t.t_fs ≢ e.entry.d_fsdata
            → (t' : Tag) × (s'.tags p ≡ some t') × (t'.t_fs ≡ t.t_fs) × (t'.t_inode ≡ t.t_inode))
  cinq_rename-cnode_lookup_inode fuel rounds f untaken fresh room can hidden away apart_tags at_fs
        low =
      let fresh' : IsFresh taken = record {
        brk_pos = fresh.brk_pos;
        no_inode = fresh.no_inode;
        no_tag = fresh.no_tag;
        no_cnode = fresh.no_cnode;
      } in
      let (s1, child, old, ran1, placed, b, other_child, other_tag, new_tag) =
        cinq_tag_with-Placed taken new_dir new_dentry e.entry.d_inode request e.inode e.at_inode
          e.inode_ne fresh' can in
      let other = other_child e.child e.cnode e.at_child away in
      let own = u.find (by_ptr e.entry.d_fsdata) e.cnode.ci_tags in
      let kept_tag : own ≢ null → own ≢ old =
        λ ne. other_tag own (λ cn _ at. apart_tags cn at ne) ne in
      let (s2, ran2, h) =
        hide s1 child old b other f hidden kept_tag at_fs low (omega (arith, b.room)) in
      let (dc, at_dc, by_name) = names s1 child old b other s2 placed h in
      let new : u.find (by_ptr e.entry.d_fsdata) placed.cnode.ci_tags ≢ own = elim hidden [
        | inl absent ↦ λ z. placed.own (z ∙ absent.0)
        | inr o ↦ λ z. new_tag own o.tag o.at_own (kept_tag o.own) (sym z)
      ] in
      (
        s2,
        child,
        dc,
        h.after,
        rename-run fuel s1 s2 untaken ran1 ran2,
        at_dc,
        by_name,
        sees s1 child old b other s2 rounds f placed h new at_fs low,
        h.hidden rounds,
        h.at_child,
        λ fs ne. h.others fs ne ∙ ap (u.find (by_ptr fs)) (same_tags s1 child old b other),
        λ p t at some_p not_ours.
            others_kept s1 child old b other s2 p t h at
              (other_tag p (λ cn there at_cn. not_placed p t cn can at some_p not_ours there at_cn)
                some_p)
              (not_hidden p t hidden at some_p not_ours),
      )
