-- ===== src/Readdir/Position.antt =====
-- cinq_readdir from each position of an open directory, the dots included.
use cinquain_meta.Common.{
  ℕ, ◌<◌, ◌≤◌, ◌≡◌, refl, sym, subst, ◌∙◌, inl, inr, Bool, false, some, List, ◌∷◌, ◌==◌,
  if◌then◌else◌, arith, length, Bool-cases,
}
use cinquain_meta.Containers.{Ptr, elements, Library}
use cinquain_meta.File.{File}
use cinquain_meta.Memory.{State, meta_fs}
use cinquain_meta.Memory.Actions.{M, ret}
use cinquain_meta.Cnode.Nearest.{lookup-nearest}
use cinquain_meta.Tag.{i_cnode, inode_meta_root, i_fs, i_tag}
use cinquain_meta.Dir.{first}
use cinquain_meta.Readdir.{
  Dirent, fill_dot, fill_dot_dot, dot_dot_ino, fill_entries, from_cursor, cinq_readdir,
}
use cinquain_meta.Readdir.Listing.{
  Cnodes, SameCnodes, Entry, offer, fill, listing, with_cnodes, counted,
}
use cinquain_meta.Readdir.Loop.{Suffix}
use cinquain_meta.Readdir.Resume.{
  Kept, OpenDir, Left, at_dot, at_dot_dot, at_start, behind, dot_entry, dot_dot_entry, children,
  fill_grows, fill_stays, settle, start-run, behind-run,
}

module _ ⦃u : Library⦄ {D : Type 0} (filldir : D → Dirent → D × Bool) (s : State) (dentry : Ptr)
    (path : List Ptr) (dir : OpenDir s dentry path) (fuel : ℕ) (enough : length path < fuel) where
  -- A run gives what `fill` gives, and leaves what `fill` leaves.
  abbrev pub Filled : M (D × ℕ × Ptr) → D → ℕ → List Entry → Cnodes → Type 0
  Filled run dirent f_pos es g =
      let f = fill filldir dirent f_pos es in
      (g' : Cnodes) × (cursor : Ptr) × (run (with_cnodes s g)
        ≡ ret (f.0, f.1, cursor) (with_cnodes s g'))
      × SameCnodes g' s.cnodes
      × Left s dentry path dir f.1 cursor f.2

  -- The loop ends at the position 2 with all entries left, or behind it.
  stop :
      (dirent : D) (f_pos : ℕ) (es : List Entry) (rest : List Ptr)
      → 2 ≤ f_pos
      → (f_pos ≡ 2 → children s dentry path dir ≡ es)
      → Suffix rest (elements dir.cnode.ci_children)
      → listing s path rest ≡ (fill filldir dirent f_pos es).2
      → Left s dentry path dir
          (fill filldir dirent f_pos es).1
          (first rest)
          (fill filldir dirent f_pos es).2
  stop dirent f_pos es rest from all part left =
      let f = fill filldir dirent f_pos es in
      let grows = fill_grows filldir dirent f_pos es in
      settle s dentry path dir f.1 f.2 rest (omega (arith, grows))
        (λ start.
          let same : f.1 ≡ f_pos = omega (arith, grows, start) in
          all (omega (arith, grows, start)) ∙ sym (fill_stays filldir dirent f_pos es same))
        part left

  abbrev entries : D → ℕ → Ptr → M (D × ℕ × Ptr)
  entries dirent f_pos cursor =
      fill_entries filldir fuel false dir.tag.t_host dir.entry.d_fsdata dirent f_pos cursor

  start-Filled :
      (g : Cnodes) (dirent : D) (cursor : Ptr)
      → SameCnodes g s.cnodes
      → Kept s cursor
      → Filled (entries dirent 2 cursor) dirent 2 (children s dentry path dir) g
  start-Filled g dirent cursor same kept =
      let (g', rest, ran, same', part, left) =
        start-run filldir s dentry path dir fuel enough g dirent 2 cursor same refl kept in
      (
        g',
        first rest,
        ran,
        same',
        stop dirent 2 (children s dentry path dir) rest (omega arith) (λ e. refl) part left,
      )

  behind-Filled :
      (g : Cnodes) (dirent : D) (f_pos : ℕ) (cursor : Ptr) (rest : List Ptr)
      → SameCnodes g s.cnodes
      → 2 < f_pos
      → from_cursor cursor (elements dir.cnode.ci_children) ≡ some rest
      → Filled (entries dirent f_pos cursor) dirent f_pos (listing s path rest) g
  behind-Filled g dirent f_pos cursor rest same later on =
      let (g', rest', ran, same', part, left) =
        behind-run filldir s dentry path dir fuel enough g dirent f_pos cursor rest same later on in
      (
        g',
        first rest',
        ran,
        same',
        stop dirent f_pos (listing s path rest) rest' (omega arith) (λ e. absurd (omega arith)) part
            left,
      )

  -- the parent's number
  dot_dot_ino-run :
      (g : Cnodes)
      → SameCnodes g s.cnodes
      → dot_dot_ino fuel false dentry dir.tag.t_host dir.entry.d_fsdata (with_cnodes s g)
        ≡ ret dir.above_inode.i_ino (with_cnodes s g)
  unfolding dot_dot_ino
  dot_dot_ino-run g same =
      let (n, at) = counted s g s.cnodes dir.tag.t_host dir.cnode same dir.at_cnode in
      let (m, at_above) = counted s g s.cnodes dir.cnode.ci_parent dir.above same dir.at_above in
      let looked =
        lookup-nearest (with_cnodes s g) dir.cnode.ci_parent (record dir.above { ci_count = m })
          at_above fuel dir.entry.d_fsdata path dir.chain enough dir.live in
      rw (at, looked, dir.at_above_inode) refl

  dot_dot-Filled :
      (g : Cnodes) (dirent : D) (cursor : Ptr)
      → SameCnodes g s.cnodes
      → Kept s cursor
      → Filled
          (fill_dot_dot filldir fuel false dentry dir.tag.t_host dir.entry.d_fsdata dirent cursor)
          dirent
          1
          (dot_dot_entry s dentry path dir ∷ children s dentry path dir)
          g
  unfolding fill_dot_dot
  dot_dot-Filled g dirent cursor same kept =
      let e = dot_dot_entry s dentry path dir in
      let next = offer filldir dirent 1 e in
      let ino = dot_dot_ino-run g same in
      elim (Bool-cases next.1) [
        | inl took ↦
            let (g', cursor', ran, same', left) = start-Filled g next.0 cursor same kept in
            rw took (g', cursor', rw (ino, took) ran, same', left)
        | inr refused ↦
            rw refused (g, cursor, rw (ino, refused) refl, same, at_dot_dot refl refl kept)
      ]

  dot-Filled :
      (g : Cnodes) (dirent : D) (cursor : Ptr)
      → SameCnodes g s.cnodes
      → Kept s cursor
      → Filled
          (fill_dot filldir fuel false dentry dir.entry.d_inode dir.tag.t_host dir.entry.d_fsdata
            dirent cursor)
          dirent
          0
          (dot_entry s dentry path dir
            ∷ dot_dot_entry s dentry path dir
            ∷ children s dentry path dir)
          g
  unfolding fill_dot
  dot-Filled g dirent cursor same kept =
      let e = dot_entry s dentry path dir in
      let next = offer filldir dirent 0 e in
      elim (Bool-cases next.1) [
        | inl took ↦
            let (g', cursor', ran, same', left) = dot_dot-Filled g next.0 cursor same kept in
            rw took (g', cursor', rw (dir.at_inode, took) ran, same', left)
        | inr refused ↦
            rw refused (g, cursor, rw (dir.at_inode, refused) refl, same, at_dot refl refl kept)
      ]

  -- the switch of cinq_readdir over the position
  abbrev switch : D → ℕ → Ptr → M (D × ℕ × Ptr)
  switch dirent f_pos cursor =
      if f_pos == 0
      then fill_dot filldir fuel false dentry dir.entry.d_inode dir.tag.t_host dir.entry.d_fsdata
          dirent cursor
      else if f_pos == 1
      then fill_dot_dot filldir fuel false dentry dir.tag.t_host dir.entry.d_fsdata dirent cursor
      else entries dirent f_pos cursor

  switch-Filled :
      (g : Cnodes) (dirent : D) (f_pos : ℕ) (cursor : Ptr) (es : List Entry)
      → SameCnodes g s.cnodes
      → Left s dentry path dir f_pos cursor es
      → Filled (switch dirent f_pos cursor) dirent f_pos es g
  switch-Filled g dirent f_pos cursor es same (at_dot at all kept) =
      subst (λ n. Filled (switch dirent n cursor) dirent n es g) (sym at)
        (subst (λ l. Filled (switch dirent 0 cursor) dirent 0 l g) all
          (dot-Filled g dirent cursor same kept))
  switch-Filled g dirent f_pos cursor es same (at_dot_dot at all kept) =
      subst (λ n. Filled (switch dirent n cursor) dirent n es g) (sym at)
        (subst (λ l. Filled (switch dirent 1 cursor) dirent 1 l g) all
          (dot_dot-Filled g dirent cursor same kept))
  switch-Filled g dirent f_pos cursor es same (at_start at all kept) =
      subst (λ n. Filled (switch dirent n cursor) dirent n es g) (sym at)
        (subst (λ l. Filled (switch dirent 2 cursor) dirent 2 l g) all
          (start-Filled g dirent cursor same kept))
  switch-Filled g dirent f_pos cursor es same (behind later rest on left) =
      let not_0 : (f_pos == 0) ≡ false = ground arith in
      let not_1 : (f_pos == 1) ≡ false = ground arith in
      subst (λ l. Filled (switch dirent f_pos cursor) dirent f_pos l g) left
        (rw (not_0, not_1) (behind-Filled g dirent f_pos cursor rest same later on))

  -- cinq_readdir of an open directory that is not the root of all file systems ends with no fault:
  -- filldir is given the entries that are left, in their order, up to the first that it does not take,
  -- and what is left at the new position and cursor are the entries from that one on. Of the memory
  -- only the counts of open directories change.
  pub cinq_readdir-fill :
      (g : Cnodes) (filp : File) (dirent : D) (es : List Entry)
      → SameCnodes g s.cnodes
      → filp.f_dentry ≡ dentry
      → Left s dentry path dir filp.f_pos filp.private_data es
      → let f = fill filldir dirent filp.f_pos es in
        (g' : Cnodes) × (cursor : Ptr) × (cinq_readdir filldir fuel filp dirent (with_cnodes s g)
          ≡ ret (f.0, record filp { f_pos = f.1; private_data = cursor }) (with_cnodes s g'))
        × SameCnodes g' s.cnodes
        × Left s dentry path dir f.1 cursor f.2
  unfolding cinq_readdir i_cnode i_tag i_fs inode_meta_root
  cinq_readdir-fill g filp dirent es same opened left =
      let (g', cursor, ran, same', left') =
        switch-Filled g dirent filp.f_pos filp.private_data es same left in
      let plain : (dir.tag.t_fs == meta_fs) ≡ false = ground (arith, dir.plain) in
      (
        g',
        cursor,
        rw (opened, dir.at_dentry, dir.at_inode, dir.at_tag, dir.at_inode, dir.at_tag, plain, ran)
            refl,
        same',
        left',
      )
