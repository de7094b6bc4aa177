-- ===== src/Valid/Counts.antt =====
-- The counters of directories: tags for the ancestors of a name that the file system makes.
use cinquain_meta.Common.{
  ℕ, zero, suc, ◌≡◌, ◌∙◌, ap, Bool, true, some, ◌==◌, ◌||◌, arith, Bool-cases, inl, inr,
}
use cinquain_meta.Containers.{Ptr, null, by_ptr, Library}
use cinquain_meta.Memory.{State, Cnode}
use cinquain_meta.Memory.Actions.{M, ◌>>=◌, ◌>>◌, inode_at}
use cinquain_meta.Memory.Steady.{
  Post, Steady, Still, Steady-pure, Steady-inode_at, Steady-cnode_at, Steady-dentry_at,
  Steady-tag_at, held,
}
use cinquain_meta.Vfs.{as_dir_mode}
use cinquain_meta.Tag.{cinq_visible, tag_new, cnode_add_tag, cnode_find_tag, inc_nchild}
use cinquain_meta.Refs.{
  cinq_get_inode, link_parent, tag_ancestors_loop, cnode_tag_ancestors, local_inc_ref,
}
use cinquain_meta.Valid.{
  Valid, Kept, Keeps, still-Kept, Keeps-then, Keeps-Steady, Keeps-bind, Keeps-if,
}
use cinquain_meta.Valid.Tables.{NewTag, Added, add_tag-Added}
use cinquain_meta.Valid.Attach.{tag_new-NewTag}
use cinquain_meta.Valid.Quiet.{
  quiet, Steady-get_inode, Steady-inc_nchild, Steady-i_cnode, Steady-i_tag,
}

module _ ⦃u : Library⦄ where
  Steady-link_parent : (b : Bool) (tag : Ptr) → Steady (link_parent b tag)
  Steady-link_parent b tag = search (quiet)

  tagged-Kept :
      (s : State) (fs parent c : Ptr) (cn : Cnode) (rest : Ptr → M (Unit {0}))
      → Valid s
      → s.cnodes c ≡ some cn
      → u.find (by_ptr fs) cn.ci_tags ≡ null
      → ((t : Ptr) → Keeps (rest t))
      → Post
          (λ a s'. Kept s s')
          ((do new_tag ← tag_new fs parent cinq_visible; cnode_add_tag c new_tag; rest new_tag) s)
  unfolding cnode_add_tag
  tagged-Kept s fs parent c cn rest v at absent next =
      Keeps-then (NewTag fs s) s (tag_new fs parent cinq_visible s) _
        (tag_new-NewTag s fs parent cinq_visible v)
        (λ p s1 made.
          let g = still-Kept s s1 v made.still in
          (
            g,
            elim made.tag [
              | inl z ↦ rw (z, g.valid.null_tag) tt
              | inr (ne, t, at_t, of_fs) ↦
                  Keeps-then (λ a s2. Added s1 c p cn t s2) s1 (cnode_add_tag c p s1) (λ x. rest p)
                    (add_tag-Added s1 c p cn t g.valid (made.still.cnodes c ∙ at) at_t ne
                      (ap (λ x. u.find (by_ptr x) cn.ci_tags) of_fs ∙ absent))
                    (λ a s2 h. (h.0, (next p).keeps s2 h.0.valid))
            ],
          ))

  -- a tag for an ancestor that has none of the file system
  ancestor-Kept :
      (s : State) (child fs c : Ptr) (cn : Cnode) (rest : Ptr → M (Unit {0}))
      → Valid s
      → s.cnodes c ≡ some cn
      → u.find (by_ptr fs) cn.ci_tags ≡ null
      → ((t : Ptr) → Keeps (rest t))
      → Post
          (λ a s'. Kept s s')
          ((do
            i ← inode_at child
            parent ← cinq_get_inode child (as_dir_mode i.i_mode)
            new_tag ← tag_new fs parent cinq_visible
            cnode_add_tag c new_tag
            rest new_tag)
            s)
  ancestor-Kept s child fs c cn rest v at absent next = elim (held (s.inodes child)) [
    | inl gone ↦ rw gone tt
    | inr (i, at_i) ↦ rw at_i (
        Keeps-then (λ a s1. Still s s1) s (cinq_get_inode child (as_dir_mode i.i_mode) s) _
          ((Steady-get_inode child (as_dir_mode i.i_mode)).still s)
          (λ parent s1 g.
            let k1 = still-Kept s s1 v g in
            (k1, tagged-Kept s1 fs parent c cn rest k1.valid (g.cnodes c ∙ at) absent next)))
  ]

  pub Keeps-tag_ancestors :
      (fuel : ℕ) (child fs : Ptr) (to_ln : Bool) (ci_child : Ptr)
      → Keeps (tag_ancestors_loop fuel child fs to_ln ci_child)
  unfolding tag_ancestors_loop cnode_find_tag
  Keeps-tag_ancestors zero child fs to_ln ci_child = record { keeps = λ s v. tt }
  Keeps-tag_ancestors (suc fuel) child fs to_ln ci_child =
      Keeps-bind (Keeps-Steady (Steady-cnode_at ci_child)) (λ c.
        Keeps-if ((c.ci_parent == ci_child) || (c.ci_parent == null))
          (Keeps-Steady (Steady-pure tt))
          (record {
            keeps = λ s v. elim (held (s.cnodes c.ci_parent)) [
              | inl gone ↦ rw gone tt
              | inr (cn, at) ↦ elim (Bool-cases (u.find (by_ptr fs) cn.ci_tags == null)) [
                | inl absent ↦
                    rw (at, absent)
                      (ancestor-Kept s child fs c.ci_parent cn
                        (λ t. do
                          inc_nchild t
                          link_parent to_ln t
                          tag_ancestors_loop fuel child fs true c.ci_parent)
                        v at (ground arith)
                        (λ t. Keeps-bind (Keeps-Steady (Steady-inc_nchild t)) (λ _.
                          Keeps-bind (Keeps-Steady (Steady-link_parent to_ln t))
                            (λ _. Keeps-tag_ancestors fuel child fs true c.ci_parent))))
                | inr there ↦
                    let m : Steady (do
                      inc_nchild (u.find (by_ptr fs) cn.ci_tags)
                      link_parent to_ln (u.find (by_ptr fs) cn.ci_tags)) =
                      search (quiet, Steady-link_parent) in
                    rw (at, there) ((Keeps-Steady m).keeps s v)
              ]
            ];
          }))

  Keeps-ancestors : (fuel : ℕ) (dentry : Ptr) → Keeps (cnode_tag_ancestors fuel dentry)
  unfolding cnode_tag_ancestors
  Keeps-ancestors fuel dentry = Keeps-bind (Keeps-Steady (Steady-dentry_at dentry)) (λ d.
      Keeps-bind (Keeps-Steady (Steady-inode_at d.d_inode)) (λ i.
        Keeps-bind (Keeps-Steady (Steady-i_cnode d.d_inode))
          (λ c. Keeps-tag_ancestors fuel d.d_inode d.d_fsdata _ c)))

  pub Keeps-inc_ref : (fuel : ℕ) (dir dentry : Ptr) → Keeps (local_inc_ref fuel dir dentry)
  unfolding local_inc_ref
  Keeps-inc_ref fuel dir dentry = Keeps-bind (Keeps-Steady (Steady-i_tag dir)) (λ dir_tag.
      Keeps-bind (Keeps-Steady (Steady-dentry_at dentry)) (λ d.
        Keeps-bind (Keeps-Steady (Steady-tag_at dir_tag)) (λ t.
          Keeps-if (t.t_fs == d.d_fsdata) (Keeps-Steady (search (quiet) depth 12))
            (Keeps-ancestors fuel dentry))))
