-- ===== src/Valid/Attach.antt =====
-- The actions that give a new inode its name and its ancestors their tags.
use cinquain_meta.Common.{
  ℕ, ◌≡◌, ◌≢◌, refl, ◌∙◌, true, false, some, ◌==◌, arith, Bool-cases, inl, inr, List, ==_refl,
}
use cinquain_meta.Containers.{Ptr, null, by_ptr, by_str, Library}
use cinquain_meta.Containers.Laws.{IsTable-delete, find-nil, find-delete}
use cinquain_meta.Errno.{success, failure, enospc, einval}
use cinquain_meta.Memory.{State, Tag, Cnode}
use cinquain_meta.Memory.Actions.{pure, ◌>>◌, update}
use cinquain_meta.Memory.Steady.{Post, Post-map, Post-and_then, Steady-pure, held}
use cinquain_meta.Tag.{tag_new, tag_new_with, cnode_add_tag, cnode_find_tag, cnode_rm_tag, negative}
use cinquain_meta.Cnode.{cnode_new, cnode_find_child, blank_cnode}
use cinquain_meta.Create.{attach, attach_to_new, attach_to_child}
use cinquain_meta.Valid.{Valid, Kept, Keeps-then, Keeps-Steady}
use cinquain_meta.Valid.Tables.{
  NewTag, tag_new_with-NewTag, NewCnode, cnode_new-NewCnode, Added, add_tag-Added, put-Valid,
}
use cinquain_meta.Valid.Names.{named-Kept}

pub tag_new-NewTag :
    (s : State) (fs inode mode : ℕ) → Valid s → Post (NewTag fs s) (tag_new fs inode mode s)
unfolding tag_new
tag_new-NewTag s fs inode mode v =
    Post-and_then (NewTag fs s) (NewTag fs s) (tag_new_with fs inode mode s) _
      (tag_new_with-NewTag s fs inode mode v)
      (λ p s1 made. elim (held (s1.inodes inode)) [
        | inl gone ↦ rw gone tt
        | inr (i, at) ↦ rw at (record {
          still = record {
            cnodes = made.still.cnodes;
            fsnodes = made.still.fsnodes;
            brk = made.still.brk;
            null_tag = made.still.null_tag;
          };
          tag = made.tag;
        })
      ])

module _ ⦃u : Library⦄ (s : State) (tag : Ptr) (t : Tag) (v : Valid s) (at_t : s.tags tag ≡ some t)
    (tag_ne : tag ≢ null) where
  attach_to_new-Kept :
      (parent : Ptr) (pc : Cnode) (name : List ℕ)
      → s.cnodes parent ≡ some pc
      → u.find (by_str name) pc.ci_children ≡ null
      → Post (λ a s'. Kept s s') (attach_to_new parent name tag s)
  unfolding attach_to_new
  attach_to_new-Kept parent pc name at absent =
      Keeps-then (NewCnode name s) s (cnode_new name s) _ (cnode_new-NewCnode s name v)
        (λ c s1 made.
          let g = made.kept in
          (
            g,
            elim made.cnode [
              | inl z ↦
                  let e : (c == null) ≡ true = ground arith in
                  rw e ((Keeps-Steady (Steady-pure (failure enospc))).keeps s1 g.valid)
              | inr (ne, free, at_c, others) ↦
                  let e : (c == null) ≡ false = ground arith in
                  let apart : parent ≢ c = λ same. ground arith in
                  rw e (
                    named-Kept s1 parent c tag pc (blank_cnode c name) t g.valid
                      (others parent apart ∙ at) at_c apart ne (made.tags tag ∙ at_t) tag_ne
                      (find-nil (by_ptr t.t_fs)) absent)
            ],
          ))

  -- the tag that is added, and success
  added_last :
      (s1 : State) (c : Ptr) (cn : Cnode)
      → Valid s1
      → s1.cnodes c ≡ some cn
      → s1.tags tag ≡ some t
      → u.find (by_ptr t.t_fs) cn.ci_tags ≡ null
      → Post (λ a s'. Kept s1 s') ((cnode_add_tag c tag >> pure success) s1)
  added_last s1 c cn v1 at_c at_t1 absent =
      Keeps-then (λ a s2. Added s1 c tag cn t s2) s1 (cnode_add_tag c tag s1) (λ x. pure success)
        (add_tag-Added s1 c tag cn t v1 at_c at_t1 tag_ne absent)
        (λ a s2 h. (h.0, (Keeps-Steady (Steady-pure success)).keeps s2 h.0.valid))

  attach_to_child-Kept :
      (child : Ptr) → Post (λ a s'. Kept s s') (attach_to_child child t.t_fs tag s)
  unfolding attach_to_child cnode_find_tag cnode_rm_tag
  attach_to_child-Kept child = elim (held (s.cnodes child)) [
    | inl gone ↦ rw gone tt
    | inr (cn, at) ↦ elim (Bool-cases (u.find (by_ptr t.t_fs) cn.ci_tags == null)) [
      | inl absent ↦ rw (at, absent) (added_last s child cn v at at_t (ground arith))
      | inr there ↦ elim (held (s.tags (u.find (by_ptr t.t_fs) cn.ci_tags))) [
        | inl gone ↦ rw (at, there, gone) tt
        | inr (old, at_old) ↦ elim (Bool-cases (negative old)) [
          | inr positive ↦
              rw (at, there, at_old, positive)
                ((Keeps-Steady (Steady-pure (failure einval))).keeps s v)
          | inl removed ↦
              let (tags, children) = v.tables child cn at in
              let after : Cnode = record cn {
                ci_tags = u.delete (u.find (by_ptr t.t_fs) cn.ci_tags) cn.ci_tags;
              } in
              let valid =
                put-Valid s child cn after v at (IsTable-delete _ cn.ci_tags tags) children in
              let gone : u.find (by_ptr t.t_fs) after.ci_tags ≡ null =
                find-delete _ (by_ptr t.t_fs) cn.ci_tags tags
                ∙ rw (==_refl (u.find (by_ptr t.t_fs) cn.ci_tags)) refl in
              let s1 : State = record s { cnodes = update s.cnodes child (some after) } in
              rw (at, there, at_old, removed, at)
                (Post-map (λ a s'. Kept s1 s') (λ a s'. Kept s s')
                  ((cnode_add_tag child tag >> pure success) s1)
                  (added_last s1 child after valid (ground arith) at_t gone)
                  (λ a s2 h. record { valid = h.valid; fsnodes = h.fsnodes }))
        ]
      ]
    ]
  ]

  pub attach-Kept :
      (parent : Ptr) (name : List ℕ) → Post (λ a s'. Kept s s') (attach parent name t.t_fs tag s)
  unfolding attach cnode_find_child
  attach-Kept parent name = elim (held (s.cnodes parent)) [
    | inl gone ↦ rw gone tt
    | inr (pc, at) ↦ elim (Bool-cases (u.find (by_str name) pc.ci_children == null)) [
      | inl absent ↦ rw (at, absent) (attach_to_new-Kept parent pc name at (ground arith))
      | inr there ↦ rw (at, there) (attach_to_child-Kept (u.find (by_str name) pc.ci_children))
    ]
  ]
