-- ===== src/Dir/Seek.antt =====
-- cinq_dir_lseek in a directory against the entries that cinq_readdir gives afterwards.
use cinquain_meta.Common.{
  ℕ, zero, suc, ◌-◌, ◌<◌, ◌≤◌, ◌≡◌, ◌≢◌, refl, sym, subst, ◌∙◌, ap, ◌⊎◌, inl, inr, true, false,
  Option, none, some, List, [], ◌∷◌, ◌==◌, ltb, if◌then◌else◌, arith, length, inc32,
}
use cinquain_meta.Containers.{Ptr, null, elements, Library}
use cinquain_meta.Errno.{ok}
use cinquain_meta.File.{File}
use cinquain_meta.Memory.{State, Cnode, meta_fs}
use cinquain_meta.Memory.Actions.{ret, fault, skip, set_cnode}
use cinquain_meta.Fsnode.Chain.{parent_of, Chain}
use cinquain_meta.Cnode.{cnode_lookup_inode}
use cinquain_meta.Cnode.Nearest.{lookup-nearest}
use cinquain_meta.Tag.{i_cnode, i_tag, i_fs, inode_meta_root}
use cinquain_meta.Dir.{first, skip_children, seek_cursor, dir_target, cinq_dir_lseek}
use cinquain_meta.Readdir.Listing.{
  Cnodes, SameCnodes, Entry, seen_at, entry_at, listing, Visitable, AllVisitable, uncounted,
  with_cnodes, counted,
}
use cinquain_meta.Readdir.Loop.{Suffix}
use cinquain_meta.Readdir.Cursor.{AllVisitable-Suffix}
use cinquain_meta.Readdir.Resume.{
  Kept, OpenDir, Left, children, settle, drop_cnode-Kept, hold_cnode-Kept,
}

cons_ne : (p : Ptr) (l : List Ptr) → p ∷ l ≢ []
cons_ne p l e = absurd (ground (arith, e))

abbrev pub drop : ℕ → List Entry → List Entry
drop zero es = es
drop (suc n) [] = []
drop (suc n) (e ∷ es) = drop n es

module _ ⦃u : Library⦄ (s : State) (path : List Ptr) where
  -- the cnodes that follow when `n` that the file system sees have been passed
  abbrev pub behind : ℕ → List Ptr → List Ptr
  behind zero l = l
  behind (suc n) [] = []
  behind (suc n) (p ∷ l) =
      let over = behind (suc n) l in
      let past = behind n l in if length (entry_at s path (s.cnodes p)) == 0 then over else past

nothing : (o : Option Cnode) → uncounted o ≡ none → o ≡ none
nothing none e = refl
nothing (some c) e = absurd (ground arith)

module _ ⦃u : Library⦄ (s : State) (fs : Ptr) (path : List Ptr) (ch : Chain (parent_of s) fs path)
    (fuel : ℕ) (enough : length path < fuel) where
  -- The loop passes over as many visible children as it is told to, or over all.
  skip_children-drop :
      (g : Cnodes) (n : ℕ) (l : List Ptr)
      → SameCnodes g s.cnodes
      → AllVisitable s path l
      → (rest : List Ptr) × (skip_children fuel fs n l (with_cnodes s g)
          ≡ ret rest (with_cnodes s g))
        × Suffix rest l
        × (listing s path rest ≡ drop n (listing s path l))
        × (rest ≡ behind s path n l)
  unfolding skip_children
  skip_children-drop g zero l same all = (l, refl, ([], refl), refl, refl)
  skip_children-drop g (suc n) [] same all = ([], refl, ([], refl), refl, refl)
  skip_children-drop g (suc n) (p ∷ l) same ((p_ne, c, at, live, seen), more) =
      let (m, at_g) = counted s g s.cnodes p c same at in
      let looked : cnode_lookup_inode fuel p fs (with_cnodes s g)
          ≡ ret (seen_at s path c) (with_cnodes s g) =
        lookup-nearest (with_cnodes s g) p (record c { ci_count = m }) at_g fuel fs path ch enough
          live in
      elim seen [
        | inl hidden ↦
            let shut : (seen_at s path c == null) ≡ true = ground arith in
            let (rest, ran, (before, e), left, here) = skip_children-drop g (suc n) l same more in
            (
              rest,
              rw (looked, shut) ran,
              (p ∷ before, ap (λ (k : List Ptr). p ∷ k) e),
              rw (at, shut) left,
              rw (at, shut) here,
            )
        | inr (ne, i, at_i) ↦
            let shown : (seen_at s path c == null) ≡ false = ground arith in
            let (rest, ran, (before, e), left, here) = skip_children-drop g n l same more in
            (
              rest,
              rw (looked, shown) ran,
              (p ∷ before, ap (λ (k : List Ptr). p ∷ k) e),
              rw (at, shown, at_i) left,
              rw (at, shown, at_i) here,
            )
      ]

module _ ⦃u : Library⦄ (s : State) (dentry : Ptr) (path : List Ptr)
    (dir : OpenDir s dentry path) where
  -- the children behind the first `n` that the file system sees
  abbrev pub later : ℕ → List Ptr
  later n = behind s path n (elements dir.cnode.ci_children)

  -- With a child behind the first `n` that are seen, the cursor is at it and their entries are left
  -- out; with none, the cursor is at the first child and all entries are there again.
  abbrev pub Sought : ℕ → Ptr → List Entry → Type 0
  Sought n cursor es =
      ((later n ≢ []) × (cursor ≡ first (later n)) × (es ≡ drop n (children s dentry path dir)))
      ⊎ ((later n ≡ [])
          × (cursor ≡ first (elements dir.cnode.ci_children))
          × (drop n (children s dentry path dir) ≡ [])
          × (es ≡ children s dentry path dir))

module _ ⦃u : Library⦄ (s : State) (dentry : Ptr) (path : List Ptr) (dir : OpenDir s dentry path)
    (fuel : ℕ) (enough : length path < fuel) where
  -- The cursor that the code takes is a child, and leads to the entries sought.
  choose :
      (n : ℕ) (l rest : List Ptr)
      → l ≡ elements dir.cnode.ci_children
      → l ≢ []
      → Suffix rest l
      → listing s path rest ≡ drop n (children s dentry path dir)
      → rest ≡ later s dentry path dir n
      → (p : Ptr) × (rest' : List Ptr) × ((if first rest == null then first l else first rest) ≡ p)
        × Suffix (p ∷ rest') l
        × Sought s dentry path dir n p (listing s path (p ∷ rest'))
  choose n [] rest same full part left here = absurd (full refl)
  choose n (p ∷ l) [] same full part left here =
      (p, l, refl, ([], refl), inr (sym here, ap first same, sym left, ap (listing s path) same))
  choose n (q ∷ l) (p ∷ rest) same full (before, e) left here =
      let all = subst (AllVisitable s path) (sym same) dir.visitable in
      let kept = AllVisitable-Suffix s path before (p ∷ rest) (subst (AllVisitable s path) e all) in
      let ne : (p == null) ≡ false = ground (arith, kept.0.0) in
      (
        p,
        rest,
        rw ne refl,
        (before, e),
        inl (λ none_left. cons_ne p rest (here ∙ none_left), ap first here, left),
      )

  -- atomic_inc(&cur->ci_count)
  count_up :
      (g : Cnodes) (p : Ptr)
      → SameCnodes g s.cnodes
      → Visitable s path p
      → (g' : Cnodes) × (set_cnode p
            (λ c. record c { ci_count = inc32 c.ci_count })
            (with_cnodes s g)
          ≡ ret tt (with_cnodes s g'))
        × SameCnodes g' s.cnodes
  count_up g p same (ne, c, at, _, _) =
      let (g', held, same') = hold_cnode-Kept s g p same (inr (ne, c, at)) in
      let some_cnode : (p == null) ≡ false = ground arith in
      (
        g',
        subst
            (λ b.
              (if b then skip else set_cnode p (λ v. record v { ci_count = inc32 v.ci_count }))
                (with_cnodes s g)
              ≡ ret tt (with_cnodes s g'))
            some_cnode held,
        same',
      )

  seek_cursor-run :
      (g : Cnodes) (filp : File) (n : ℕ)
      → SameCnodes g s.cnodes
      → filp.f_dentry ≡ dentry
      → Kept s filp.private_data
      → elements dir.cnode.ci_children ≢ []
      → (g' : Cnodes) × (rest : List Ptr) × (seek_cursor fuel filp dir.tag.t_host false n
            (with_cnodes s g)
          ≡ ret (first rest) (with_cnodes s g'))
        × SameCnodes g' s.cnodes
        × Suffix rest (elements dir.cnode.ci_children)
        × Sought s dentry path dir n (first rest) (listing s path rest)
  unfolding seek_cursor
  seek_cursor-run g filp n same opened kept full =
      let l = elements dir.cnode.ci_children in
      let (m, at) = counted s g s.cnodes dir.tag.t_host dir.cnode same dir.at_cnode in
      let (g1, dropped, same1) = drop_cnode-Kept s g filp.private_data same kept in
      let (rest, ran, part, left, here) =
        skip_children-drop s dir.entry.d_fsdata path dir.chain fuel enough g1 n l same1
          dir.visitable in
      let (p, rest', chosen, (before, e), sought) = choose n l rest refl full part left here in
      let all =
        AllVisitable-Suffix s path before (p ∷ rest')
          (subst (AllVisitable s path) e dir.visitable) in
      let (g2, counted_up, same2) = count_up g1 p same1 all.0 in
      (
        g2,
        p ∷ rest',
        rw (at, opened, dir.at_dentry, dropped, ran, chosen, counted_up) refl,
        same2,
        (before, e),
        sought,
      )

  seek_cursor-Left :
      (to : ℕ) (rest : List Ptr)
      → 2 ≤ to
      → Suffix rest (elements dir.cnode.ci_children)
      → Sought s dentry path dir (to - 2) (first rest) (listing s path rest)
      → Left s dentry path dir to (first rest) (listing s path rest)
  seek_cursor-Left to rest from part (inl (_, _, gone_by)) =
      settle s dentry path dir to (listing s path rest) rest from
        (λ at. sym (gone_by ∙ ap (λ n. drop (n - 2) (children s dentry path dir)) at)) part refl
  seek_cursor-Left to rest from part (inr (_, _, _, again)) =
      settle s dentry path dir to (listing s path rest) rest from (λ at. sym again) part refl

  -- cinq_dir_lseek to another position `to`, behind the dots, of a directory with a child, not the
  -- root of all file systems, ends with no fault. Where a child follows the first `to - 2` that
  -- the file system sees, the cursor is at it and the entries that are left are those behind the
  -- first `to - 2`; where none does, the cursor is at the first child and all entries are left
  -- again. Of the memory only the counts of open directories change.
  pub cinq_dir_lseek-Left :
      (g : Cnodes) (filp : File) (offset origin to : ℕ)
      → SameCnodes g s.cnodes
      → filp.f_dentry ≡ dentry
      → Kept s filp.private_data
      → elements dir.cnode.ci_children ≢ []
      → dir_target filp offset origin ≡ some to
      → to ≢ filp.f_pos
      → 2 ≤ to
      → (g' : Cnodes) × (cursor : Ptr) × (es : List Entry) × (cinq_dir_lseek fuel filp offset origin
            (with_cnodes s g)
          ≡ ret (ok (record filp { f_pos = to; private_data = cursor })) (with_cnodes s g'))
        × SameCnodes g' s.cnodes
        × Left s dentry path dir to cursor es
        × Sought s dentry path dir (to - 2) cursor es
  unfolding cinq_dir_lseek i_cnode i_tag i_fs inode_meta_root
  cinq_dir_lseek-Left g filp offset origin to same opened kept full target moves from =
      let (g', rest, ran, same', part, sought) =
        seek_cursor-run g filp (to - 2) same opened kept full in
      let plain : (dir.tag.t_fs == meta_fs) ≡ false = ground (arith, dir.plain) in
      let moved : (to == filp.f_pos) ≡ false = ground arith in
      let far : ltb to 2 ≡ false = ground arith in
      let at : s.dentries filp.f_dentry ≡ some dir.entry = ap s.dentries opened ∙ dir.at_dentry in
      (
        g',
        first rest,
        listing s path rest,
        rw (at, dir.at_inode, dir.at_tag, target, moved, far, dir.at_inode, dir.at_tag, plain, ran)
            refl,
        same',
        seek_cursor-Left to rest from part sought,
        sought,
      )

  skip_children-empty :
      (n : ℕ) → skip_children fuel dir.entry.d_fsdata n [] ≡ (λ (t : State). ret [] t)
  unfolding skip_children
  skip_children-empty zero = refl
  skip_children-empty (suc n) = refl

  seek_cursor-fault :
      (g : Cnodes) (filp : File) (n : ℕ)
      → SameCnodes g s.cnodes
      → filp.f_dentry ≡ dentry
      → Kept s filp.private_data
      → elements dir.cnode.ci_children ≡ []
      → s.cnodes null ≡ none
      → seek_cursor fuel filp dir.tag.t_host false n (with_cnodes s g) ≡ fault
  unfolding seek_cursor
  seek_cursor-fault g filp n same opened kept empty no_null =
      let (m, at) = counted s g s.cnodes dir.tag.t_host dir.cnode same dir.at_cnode in
      let (g1, dropped, same1) = drop_cnode-Kept s g filp.private_data same kept in
      let gone : g1 null ≡ none = nothing (g1 null) (same1 null ∙ ap uncounted no_null) in
      rw (at, opened, dir.at_dentry, dropped, empty, skip_children-empty n, gone) refl

  -- cinq_dir_lseek to another position, behind the dots, of a directory without a child is a fault,
  -- where the memory has nothing at NULL: the counter of the first child is incremented.
  pub cinq_dir_lseek-fault :
      (g : Cnodes) (filp : File) (offset origin to : ℕ)
      → SameCnodes g s.cnodes
      → filp.f_dentry ≡ dentry
      → Kept s filp.private_data
      → elements dir.cnode.ci_children ≡ []
      → s.cnodes null ≡ none
      → dir_target filp offset origin ≡ some to
      → to ≢ filp.f_pos
      → 2 ≤ to
      → cinq_dir_lseek fuel filp offset origin (with_cnodes s g) ≡ fault
  unfolding cinq_dir_lseek i_cnode i_tag i_fs inode_meta_root
  cinq_dir_lseek-fault g filp offset origin to same opened kept empty no_null target moves from =
      let ran = seek_cursor-fault g filp (to - 2) same opened kept empty no_null in
      let plain : (dir.tag.t_fs == meta_fs) ≡ false = ground (arith, dir.plain) in
      let moved : (to == filp.f_pos) ≡ false = ground arith in
      let far : ltb to 2 ≡ false = ground arith in
      let at : s.dentries filp.f_dentry ≡ some dir.entry = ap s.dentries opened ∙ dir.at_dentry in
      rw (at, dir.at_inode, dir.at_tag, target, moved, far, dir.at_inode, dir.at_tag, plain, ran)
        refl
