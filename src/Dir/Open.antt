-- ===== src/Dir/Open.antt =====
-- cinq_dir_open and cinq_dir_release.
use cinquain_meta.Common.{
  ◌<◌, ◌^◌, ◌≡◌, ◌≢◌, refl, sym, ◌∙◌, ap, inl, inr, false, Option, some, List, ◌∷◌, ◌==◌, arith,
  Bool-cases, inc32, dec32, dec32-inc32,
}
use cinquain_meta.Containers.{Ptr, null, elements, Library}
use cinquain_meta.Errno.{ok}
use cinquain_meta.File.{File}
use cinquain_meta.Memory.{State, Cnode, meta_fs}
use cinquain_meta.Memory.Actions.{ret, update}
use cinquain_meta.Tag.{i_cnode, i_tag, i_fs, inode_meta_root}
use cinquain_meta.Dir.{first, hold_cnode, drop_cnode, cinq_dir_open, cinq_dir_release}
use cinquain_meta.Readdir.Listing.{SameCnodes, with_cnodes}
use cinquain_meta.Readdir.Resume.{
  Kept, OpenDir, Left, at_dot, dot_entry, dot_dot_entry, children, first-Kept,
}

module _ ⦃u : Library⦄ (s : State) where
  -- taking the cursor and giving it back
  hold-drop :
      (p : Ptr)
      → Kept s p
      → ((c : Cnode) → s.cnodes p ≡ some c → c.ci_count < 2 ^ 32)
      → (g g' : Ptr → Option Cnode) × (hold_cnode p s ≡ ret tt (with_cnodes s g))
        × SameCnodes g s.cnodes
        × (drop_cnode p (with_cnodes s g) ≡ ret tt (with_cnodes s g'))
        × ((q : Ptr) → g' q ≡ s.cnodes q)
  hold-drop p (inl gone) small =
      (s.cnodes, s.cnodes, ground arith, λ q. refl, ground arith, λ q. refl)
  hold-drop p (inr (ne, c, at)) small =
      let up = record c { ci_count = inc32 c.ci_count } in
      let down = record c { ci_count = dec32 (inc32 c.ci_count) } in
      let g = update s.cnodes p (some up) in
      let back : down ≡ c =
        ap (λ n. record c { ci_count = n }) (dec32-inc32 c.ci_count (small c at)) in
      (
        g,
        update g p (some down),
        ground arith,
        λ q. ground arith,
        ground arith,
        λ q. elim (Bool-cases (p == q)) [
          | inl here ↦ rw here (ap (λ v. some v) back ∙ sym at ∙ ap s.cnodes (ground arith))
          | inr there ↦ rw there refl
        ],
      )

module _ ⦃u : Library⦄ (s : State) (dentry : Ptr) (path : List Ptr)
    (dir : OpenDir s dentry path) where
  -- cinq_dir_open of a directory that is not the root of all file systems, then cinq_dir_release: both
  -- succeed, all entries are left in between, and the cnodes are in the end as they were, where the
  -- count of the first is below 2 ^ 32.
  pub cinq_dir_open-cinq_dir_release :
      (filp : File)
      → filp.f_dentry ≡ dentry
      → dir.entry.d_inode ≢ null
      → ((c : Cnode)
          → s.cnodes (first (elements dir.cnode.ci_children)) ≡ some c
          → c.ci_count < 2 ^ 32)
      → (cursor : Ptr) × (g g' : Ptr → Option Cnode) × (cinq_dir_open filp s
          ≡ ret (ok (record filp { private_data = cursor })) (with_cnodes s g))
        × SameCnodes g s.cnodes
        × Left s dentry path dir 0 cursor (
            dot_entry s dentry path dir
            ∷ dot_dot_entry s dentry path dir
            ∷ children s dentry path dir)
        × (cinq_dir_release (record filp { private_data = cursor }) (with_cnodes s g)
            ≡ ret (ok (record filp { private_data = cursor })) (with_cnodes s g'))
        × ((q : Ptr) → g' q ≡ s.cnodes q)
  unfolding cinq_dir_open cinq_dir_release i_cnode i_tag i_fs inode_meta_root
  cinq_dir_open-cinq_dir_release filp opened exists small =
      let l = elements dir.cnode.ci_children in
      let kept = first-Kept s path l dir.visitable in
      let (g, g', held, same, dropped, back) = hold-drop s (first l) kept small in
      let plain : (dir.tag.t_fs == meta_fs) ≡ false = ground (arith, dir.plain) in
      let present : (dir.entry.d_inode == null) ≡ false = ground arith in
      let at : s.dentries filp.f_dentry ≡ some dir.entry = ap s.dentries opened ∙ dir.at_dentry in
      (
        first l,
        g,
        g',
        rw
            (
              at, present, dir.at_inode, dir.at_tag, dir.at_inode, dir.at_tag, plain, dir.at_cnode,
              held,
            )
            refl,
        same,
        at_dot refl refl kept,
        rw (at, present, dir.at_inode, dir.at_tag, dir.at_inode, dir.at_tag, plain, dropped) refl,
        back,
      )
