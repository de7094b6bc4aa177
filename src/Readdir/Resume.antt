-- ===== src/Readdir/Resume.antt =====
-- cinq_readdir from a position behind the dots, and how the next call goes on from there.
use cinquain_meta.Common.{
  ℕ, ◌+◌, ◌<◌, ◌≤◌, ◌≡◌, ◌≢◌, refl, subst, ◌⊎◌, inl, inr, Bool, true, false, some, List, [], ◌∷◌,
  ◌==◌, arith, length, Bool-cases,
}
use cinquain_meta.Containers.{Ptr, null, by_ptr, elements, Library}
use cinquain_meta.Memory.{State, Cnode, Inode, Tag, Dentry, meta_fs}
use cinquain_meta.Memory.Actions.{ret}
use cinquain_meta.Fsnode.Chain.{parent_of, Chain}
use cinquain_meta.Dir.{first, hold_cnode, drop_cnode}
use cinquain_meta.Readdir.{
  Dirent, dot, dot_dot, dt_dir, from_cursor, fill_children, fill_from, fill_entries,
}
use cinquain_meta.Readdir.Listing.{
  seen_at, Cnodes, SameCnodes, SameCnodes-trans, Entry, offer, fill, listing, AllVisitable,
  with_cnodes, counted, drop_cnode-run, hold_cnode-run,
}
use cinquain_meta.Readdir.Loop.{Suffix, children-Outcome}
use cinquain_meta.Readdir.Cursor.{
  Distinct, Suffix-trans, from_cursor-Suffix, from_cursor-first, AllVisitable-Suffix,
}

module _ {D : Type 0} (filldir : D → Dirent → D × Bool) where
  pub fill_grows :
      (dirent : D) (f_pos : ℕ) (es : List Entry) → f_pos ≤ (fill filldir dirent f_pos es).1
  fill_grows dirent f_pos [] = omega arith
  fill_grows dirent f_pos (e ∷ es) =
      ground (arith, fill_grows (offer filldir dirent f_pos e).0 (f_pos + 1) es)

  pub fill_stays :
      (dirent : D) (f_pos : ℕ) (es : List Entry)
      → (fill filldir dirent f_pos es).1 ≡ f_pos
      → (fill filldir dirent f_pos es).2 ≡ es
  fill_stays dirent f_pos [] e = refl
  fill_stays dirent f_pos (x ∷ es) e =
      ground (arith, fill_grows (offer filldir dirent f_pos x).0 (f_pos + 1) es)

-- NULL, or a cnode
abbrev pub Kept : State → Ptr → Type 0
Kept s p = (p ≡ null) ⊎ ((p ≢ null) × (c : Cnode) × (s.cnodes p ≡ some c))

module _ ⦃u : Library⦄ where
  -- A dentry of a directory, not the root of all file systems, that can be read: the chain of the
  -- file system that makes the request, a parent that it sees, and children that can be visited, none of them twice.
  pub record OpenDir (s : State) (dentry : Ptr) (path : List Ptr) : Type 0 where
    pub entry : Dentry
    pub inode : Inode
    pub tag : Tag
    pub cnode : Cnode
    pub at_dentry : s.dentries dentry ≡ some entry
    pub at_inode : s.inodes entry.d_inode ≡ some inode
    pub at_tag : s.tags inode.i_ino ≡ some tag
    pub plain : tag.t_fs ≢ meta_fs
    pub at_cnode : s.cnodes tag.t_host ≡ some cnode
    pub above : Cnode
    pub at_above : s.cnodes cnode.ci_parent ≡ some above
    pub live :
        (fs : Ptr)
        → u.find (by_ptr fs) above.ci_tags ≢ null
        → (t : Tag) × (s.tags (u.find (by_ptr fs) above.ci_tags) ≡ some t)
    pub above_inode : Inode
    pub at_above_inode : s.inodes (seen_at s path above) ≡ some above_inode
    pub chain : Chain (parent_of s) entry.d_fsdata path
    pub distinct : Distinct (elements cnode.ci_children)
    pub visitable : AllVisitable s path (elements cnode.ci_children)

  abbrev pub dot_entry :
      (s : State) (dentry : Ptr) (path : List Ptr) → OpenDir s dentry path → Entry
  dot_entry s dentry path dir = record { name = dot; ino = dir.inode.i_ino; type = dt_dir }

  abbrev pub dot_dot_entry :
      (s : State) (dentry : Ptr) (path : List Ptr) → OpenDir s dentry path → Entry
  dot_dot_entry s dentry path dir = record {
    name = dot_dot;
    ino = dir.above_inode.i_ino;
    type = dt_dir;
  }

  abbrev pub children :
      (s : State) (dentry : Ptr) (path : List Ptr) → OpenDir s dentry path → List Entry
  children s dentry path dir = listing s path (elements dir.cnode.ci_children)

  -- The entries that are left to give at a position and a cursor: all below the position 3 but the dots
  -- passed, those from the cursor on at a later one.
  pub data Left (s : State) (dentry : Ptr) (path : List Ptr) (dir : OpenDir s dentry path)
      (f_pos : ℕ) (cursor : Ptr) (es : List Entry) : Type 0 where
    at_dot :
        f_pos ≡ 0
        → dot_entry s dentry path dir ∷ dot_dot_entry s dentry path dir ∷ children s dentry path dir
          ≡ es
        → Kept s cursor
        → Left s dentry path dir f_pos cursor es
    at_dot_dot :
        f_pos ≡ 1
        → dot_dot_entry s dentry path dir ∷ children s dentry path dir ≡ es
        → Kept s cursor
        → Left s dentry path dir f_pos cursor es
    at_start :
        f_pos ≡ 2
        → children s dentry path dir ≡ es
        → Kept s cursor
        → Left s dentry path dir f_pos cursor es
    behind :
        2 < f_pos
        → (rest : List Ptr) → from_cursor cursor (elements dir.cnode.ci_children) ≡ some rest
        → listing s path rest ≡ es
        → Left s dentry path dir f_pos cursor es

  pub drop_cnode-Kept :
      (s : State) (g : Cnodes) (p : Ptr)
      → SameCnodes g s.cnodes
      → Kept s p
      → (g' : Cnodes) × (drop_cnode p (with_cnodes s g) ≡ ret tt (with_cnodes s g'))
        × SameCnodes g' s.cnodes
  drop_cnode-Kept s g p same (inl gone) = (g, ground arith, same)
  drop_cnode-Kept s g p same (inr (ne, c, at)) =
      let (n, at') = counted s g s.cnodes p c same at in
      let (g1, ran, same1) = drop_cnode-run s g p (record c { ci_count = n }) ne at' in
      (g1, ran, SameCnodes-trans s g1 g s.cnodes same1 same)

  pub hold_cnode-Kept :
      (s : State) (g : Cnodes) (p : Ptr)
      → SameCnodes g s.cnodes
      → Kept s p
      → (g' : Cnodes) × (hold_cnode p (with_cnodes s g) ≡ ret tt (with_cnodes s g'))
        × SameCnodes g' s.cnodes
  hold_cnode-Kept s g p same (inl gone) = (g, ground arith, same)
  hold_cnode-Kept s g p same (inr (ne, c, at)) =
      let (n, at') = counted s g s.cnodes p c same at in
      let (g1, ran, same1) = hold_cnode-run s g p (record c { ci_count = n }) ne at' in
      (g1, ran, SameCnodes-trans s g1 g s.cnodes same1 same)

  pub first-Kept : (s : State) (path l : List Ptr) → AllVisitable s path l → Kept s (first l)
  first-Kept s path [] all = inl refl
  first-Kept s path (p ∷ l) ((ne, c, at, _, _), _) = inr (ne, c, at)

  -- A position behind the dots, with the cursor at an element, and the entries from there on.
  pub settle :
      (s : State) (dentry : Ptr) (path : List Ptr) (dir : OpenDir s dentry path) (f_pos : ℕ)
      (es : List Entry) (rest : List Ptr)
      → 2 ≤ f_pos
      → (f_pos ≡ 2 → children s dentry path dir ≡ es)
      → Suffix rest (elements dir.cnode.ci_children)
      → listing s path rest ≡ es
      → Left s dentry path dir f_pos (first rest) es
  settle s dentry path dir f_pos es rest from all (before, e) left =
      elim (Bool-cases (f_pos == 2)) [
        | inl start ↦
            let kept =
              AllVisitable-Suffix s path before rest
                (subst (AllVisitable s path) e dir.visitable) in
            let at : f_pos ≡ 2 = ground arith in at_start at (all at) (first-Kept s path rest kept)
        | inr later ↦
            behind (ground arith) rest
              (from_cursor-first s path (elements dir.cnode.ci_children) rest dir.distinct
                dir.visitable (before, e))
              left
      ]

module _ ⦃u : Library⦄ {D : Type 0} (filldir : D → Dirent → D × Bool) (s : State) (dentry : Ptr)
    (path : List Ptr) (dir : OpenDir s dentry path) (fuel : ℕ) (enough : length path < fuel) where
  -- what the label `default` of cinq_readdir gives from a position and a cursor
  abbrev pub Ran : Cnodes → D → ℕ → Ptr → List Entry → Type 0
  Ran g dirent f_pos cursor es =
      let f = fill filldir dirent f_pos es in
      (g' : Cnodes) × (rest : List Ptr) × (fill_entries filldir fuel false dir.tag.t_host
          dir.entry.d_fsdata dirent f_pos cursor (with_cnodes s g)
        ≡ ret (f.0, f.1, first rest) (with_cnodes s g'))
      × SameCnodes g' s.cnodes
      × Suffix rest (elements dir.cnode.ci_children)
      × (listing s path rest ≡ f.2)

  from_run :
      (fuel : ℕ) (fs : Ptr) (dirent : D) (f_pos : ℕ) (cursor : Ptr) (l rest : List Ptr)
      → from_cursor cursor l ≡ some rest
      → fill_from filldir fuel false fs dirent f_pos cursor l
        ≡ fill_children filldir fuel fs dirent f_pos rest
  unfolding fill_from
  from_run fuel fs dirent f_pos cursor l rest on = rw (fill_from, on) refl

  pub start-run :
      (g : Cnodes) (dirent : D) (f_pos : ℕ) (cursor : Ptr)
      → SameCnodes g s.cnodes
      → f_pos ≡ 2
      → Kept s cursor
      → Ran g dirent f_pos cursor (listing s path (elements dir.cnode.ci_children))
  unfolding fill_entries
  start-run g dirent f_pos cursor same starts kept =
      let l = elements dir.cnode.ci_children in
      let (n, at) = counted s g s.cnodes dir.tag.t_host dir.cnode same dir.at_cnode in
      let (g1, dropped, same1) = drop_cnode-Kept s g cursor same kept in
      let (g2, held, same2) =
        hold_cnode-Kept s g1 (first l) same1 (first-Kept s path l dir.visitable) in
      let on = from_cursor-first s path l l dir.distinct dir.visitable ([], refl) in
      let (g3, rest, ran, same3, part, left) =
        children-Outcome filldir s dir.entry.d_fsdata path dir.chain fuel enough g2 dirent f_pos l
          same2 dir.visitable in
      let start : (f_pos == 2) ≡ true = ground arith in
      (
        g3,
        rest,
        rw
            (
              at,
              start,
              dropped,
              held,
              from_run fuel dir.entry.d_fsdata dirent f_pos (first l) l l on,
            )
            ran,
        same3,
        part,
        left,
      )

  pub behind-run :
      (g : Cnodes) (dirent : D) (f_pos : ℕ) (cursor : Ptr) (rest : List Ptr)
      → SameCnodes g s.cnodes
      → 2 < f_pos
      → from_cursor cursor (elements dir.cnode.ci_children) ≡ some rest
      → Ran g dirent f_pos cursor (listing s path rest)
  unfolding fill_entries
  behind-run g dirent f_pos cursor rest same later on =
      let l = elements dir.cnode.ci_children in
      let (n, at) = counted s g s.cnodes dir.tag.t_host dir.cnode same dir.at_cnode in
      let (before, e) = from_cursor-Suffix cursor l rest on in
      let all =
        AllVisitable-Suffix s path before rest (subst (AllVisitable s path) e dir.visitable) in
      let (g3, rest', ran, same3, (before', e'), left) =
        children-Outcome filldir s dir.entry.d_fsdata path dir.chain fuel enough g dirent f_pos rest
          same all in
      let start : (f_pos == 2) ≡ false = ground arith in
      (
        g3,
        rest',
        rw (at, start, from_run fuel dir.entry.d_fsdata dirent f_pos cursor l rest on) ran,
        same3,
        Suffix-trans l rest rest' (before, e) (before', e'),
        left,
      )
