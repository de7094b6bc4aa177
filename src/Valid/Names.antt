-- ===== src/Valid/Names.antt =====
-- The actions that put a tag or a cnode under a name.
use cinquain_meta.Common.{
  ℕ, ◌≡◌, ◌≢◌, ◌∙◌, ap, true, false, some, ◌==◌, arith, if◌then◌else◌, Bool-cases, inl, inr, List,
}
use cinquain_meta.Containers.{Ptr, null, by_ptr, by_str, Library}
use cinquain_meta.Containers.Laws.{find-nil}
use cinquain_meta.Errno.{success, failure, enospc}
use cinquain_meta.Memory.{State, Tag, Cnode}
use cinquain_meta.Memory.Actions.{M, pure, skip, tag_at, and_then, ◌>>=◌, ◌>>◌}
use cinquain_meta.Memory.Steady.{Steady-dentry_at, Post, Steady, Steady-pure, held}
use cinquain_meta.Tag.{
  cinq_visible, tag_new_with, cnode_add_tag, cnode_find_tag, tag_reset_inode, tag_drop_inode,
}
use cinquain_meta.Refs.{local_drop_ref}
use cinquain_meta.Cnode.{cnode_find_child, cnode_new, cnode_add_child, blank_cnode}
use cinquain_meta.Link.{tag_child_with, cinq_tag_with}
use cinquain_meta.Remove.{detach}
use cinquain_meta.Valid.{Valid, Kept, Keeps, still-Kept, Keeps-then, Keeps-Steady, Keeps-bind}
use cinquain_meta.Valid.Tables.{
  NewTag, tag_new_with-NewTag, NewCnode, cnode_new-NewCnode, Added, add_tag-Added, add_child-Kept,
}
use cinquain_meta.Valid.Quiet.{quiet, Steady-i_cnode}

module _ ⦃u : Library⦄ where
  -- a new tag for a cnode that has none of the file system
  pub new_tag-Kept :
      {B : Type 0} (s : State) (c : Ptr) (cn : Cnode) (fs inode mode : ℕ) (m : M B)
      (rest : Ptr → M B)
      → Valid s
      → s.cnodes c ≡ some cn
      → u.find (by_ptr fs) cn.ci_tags ≡ null
      → Keeps m
      → ((t : Ptr) → Keeps (rest t))
      → Post
          (λ a s'. Kept s s')
          (and_then
            (tag_new_with fs inode mode s)
            (λ t. if t == null then m else (cnode_add_tag c t >> rest t)))
  new_tag-Kept s c cn fs inode mode m rest v at absent none_left next =
      Keeps-then (NewTag fs s) s (tag_new_with fs inode mode s)
        (λ t. if t == null then m else (cnode_add_tag c t >> rest t))
        (tag_new_with-NewTag s fs inode mode v)
        (λ p s1 made.
          let g = still-Kept s s1 v made.still in
          (
            g,
            elim made.tag [
              | inl z ↦
                  let e : (p == null) ≡ true = ground arith in rw e (none_left.keeps s1 g.valid)
              | inr (ne, t, at_t, of_fs) ↦
                  let e : (p == null) ≡ false = ground arith in
                  rw e (
                    Keeps-then (λ a s2. Added s1 c p cn t s2) s1 (cnode_add_tag c p s1)
                      (λ x. rest p)
                      (add_tag-Added s1 c p cn t g.valid (made.still.cnodes c ∙ at) at_t ne
                        (ap (λ x. u.find (by_ptr x) cn.ci_tags) of_fs ∙ absent))
                      (λ a s2 h. (h.0, (next p).keeps s2 h.0.valid)))
            ],
          ))

  pub Keeps-tag_child_with : (child fs inode : Ptr) → Keeps (tag_child_with child fs inode)
  unfolding tag_child_with cnode_find_tag
  Keeps-tag_child_with child fs inode = record {
    keeps = λ s v. elim (held (s.cnodes child)) [
      | inl gone ↦ rw gone tt
      | inr (cn, at) ↦ elim (Bool-cases (u.find (by_ptr fs) cn.ci_tags == null)) [
        | inl absent ↦
            rw (at, absent)
              (new_tag-Kept s child cn fs inode cinq_visible (pure (failure enospc))
                (λ t. pure success) v at (ground arith) (Keeps-Steady (Steady-pure _))
                (λ t. Keeps-Steady (Steady-pure _)))
        | inr there ↦
            let m : Steady (tag_reset_inode (u.find (by_ptr fs) cn.ci_tags) inode >> pure success) =
              search (quiet) in
            rw (at, there) ((Keeps-Steady m).keeps s v)
      ]
    ];
  }

  pub Keeps-detach : (dir dentry c fs : Ptr) → Keeps (detach dir dentry c fs)
  unfolding detach cnode_find_tag
  Keeps-detach dir dentry c fs = record {
    keeps = λ s v. elim (held (s.cnodes c)) [
      | inl gone ↦ rw gone tt
      | inr (cn, at) ↦ elim (Bool-cases (u.find (by_ptr fs) cn.ci_tags == null)) [
        | inl absent ↦
            rw (at, absent)
              (new_tag-Kept s c cn fs null cinq_visible (pure (failure enospc)) (λ t. pure success)
                v at (ground arith) (Keeps-Steady (Steady-pure _))
                (λ t. Keeps-Steady (Steady-pure _)))
        | inr there ↦
            let m : Steady (do
              t ← tag_at (u.find (by_ptr fs) cn.ci_tags)
              (if t.t_inode == null
                  then skip
                  else do tag_drop_inode (u.find (by_ptr fs) cn.ci_tags); local_drop_ref dir dentry)
              pure success) =
              search (quiet) depth 10 in
            rw (at, there) ((Keeps-Steady m).keeps s v)
      ]
    ];
  }

  -- a cnode with a tag under a name that the directory does not have
  pub named-Kept :
      (s : State) (parent child tag : Ptr) (pc cn : Cnode) (t : Tag)
      → Valid s
      → s.cnodes parent ≡ some pc
      → s.cnodes child ≡ some cn
      → parent ≢ child
      → child ≢ null
      → s.tags tag ≡ some t
      → tag ≢ null
      → u.find (by_ptr t.t_fs) cn.ci_tags ≡ null
      → u.find (by_str cn.ci_name) pc.ci_children ≡ null
      → Post
          (λ a s'. Kept s s')
          ((cnode_add_tag child tag >> (cnode_add_child parent child >> pure success)) s)
  named-Kept s parent child tag pc cn t v at_p at_c apart child_ne at_t tag_ne absent new =
      Keeps-then (λ a s'. Added s child tag cn t s') s (cnode_add_tag child tag s)
        (λ x. cnode_add_child parent child >> pure success)
        (add_tag-Added s child tag cn t v at_c at_t tag_ne absent)
        (λ a s1 g. (
          g.0,
          Keeps-then (λ a s2. Kept s1 s2) s1 (cnode_add_child parent child s1) (λ x. pure success)
              (add_child-Kept s1 parent child pc _ g.0.valid (g.2 parent apart ∙ at_p) g.1 apart
                child_ne new)
              (λ a s2 h. (h, (Keeps-Steady (Steady-pure success)).keeps s2 h.valid)),
        ))

  -- the same for a new cnode and a new tag
  pub new_child-Kept :
      (s : State) (parent : Ptr) (pc : Cnode) (name : List ℕ) (fs inode mode : ℕ)
      → Valid s
      → s.cnodes parent ≡ some pc
      → u.find (by_str name) pc.ci_children ≡ null
      → Post
          (λ a s'. Kept s s')
          ((do
            new_child ← cnode_new name
            if new_child == null then pure (failure enospc) else do
              tag ← tag_new_with fs inode mode
              if tag == null then pure (failure enospc) else do
                cnode_add_tag new_child tag
                cnode_add_child parent new_child
                pure success)
            s)
  new_child-Kept s parent pc name fs inode mode v at absent =
      Keeps-then (NewCnode name s) s (cnode_new name s) _ (cnode_new-NewCnode s name v)
        (λ c s1 made.
          let g = made.kept in
          (
            g,
            elim made.cnode [
              | inl z ↦
                  let e : (c == null) ≡ true = ground arith in
                  rw e ((Keeps-Steady (Steady-pure (failure enospc))).keeps s1 g.valid)
              | inr (ne, free, at_c, others) ↦
                  let e : (c == null) ≡ false = ground arith in
                  let apart : parent ≢ c = λ same. ground arith in
                  rw e (
                    Keeps-then (NewTag fs s1) s1 (tag_new_with fs inode mode s1) _
                      (tag_new_with-NewTag s1 fs inode mode g.valid)
                      (λ p s2 tagged.
                        let h = still-Kept s1 s2 g.valid tagged.still in
                        (
                          h,
                          elim tagged.tag [
                            | inl z ↦
                                let e2 : (p == null) ≡ true = ground arith in
                                rw e2
                                  ((Keeps-Steady (Steady-pure (failure enospc))).keeps s2 h.valid)
                            | inr (p_ne, t, at_t, of_fs) ↦
                                let e2 : (p == null) ≡ false = ground arith in
                                rw e2 (
                                  named-Kept s2 parent c p pc (blank_cnode c name) t h.valid
                                    (tagged.still.cnodes parent ∙ others parent apart ∙ at)
                                    (tagged.still.cnodes c ∙ at_c) apart ne at_t p_ne
                                    (find-nil (by_ptr t.t_fs)) absent)
                          ],
                        )))
            ],
          ))

  pub Keeps-tag_with : (dir dentry inode : Ptr) → Keeps (cinq_tag_with dir dentry inode)
  unfolding cinq_tag_with cnode_find_child
  Keeps-tag_with dir dentry inode = Keeps-bind (Keeps-Steady (Steady-dentry_at dentry)) (λ d.
      Keeps-bind (Keeps-Steady (Steady-i_cnode dir)) (λ parent. record {
        keeps = λ s v. elim (held (s.cnodes parent)) [
          | inl gone ↦ rw gone tt
          | inr (pc, at) ↦
              elim (Bool-cases (u.find (by_str d.d_name.name) pc.ci_children == null)) [
                | inl absent ↦
                    rw (at, absent)
                      (new_child-Kept s parent pc d.d_name.name d.d_fsdata inode cinq_visible v at
                        (ground arith))
                | inr there ↦
                    rw (at, there)
                      ((Keeps-tag_child_with (u.find (by_str d.d_name.name) pc.ci_children)
                          d.d_fsdata inode).keeps
                        s v)
              ]
        ];
      }))
