-- ===== src/Create/Attach.antt =====
-- The part of cinq_mkinode_ under the locks, for a name that has a cnode.
use cinquain_meta.Common.{
  ℕ, ◌≡◌, refl, ◌∙◌, ◌≢◌, ◌⊎◌, inl, inr, false, some, List, arith, ◌==◌, if◌then◌else◌, ==_refl,
}
use cinquain_meta.Containers.{Ptr, null, by_ptr, by_str, Library, Table, IsTable}
use cinquain_meta.Containers.Laws.{find-delete, IsTable-delete}
use cinquain_meta.Errno.{success}
use cinquain_meta.Memory.{State, Tag, Cnode}
use cinquain_meta.Memory.Actions.{ret, left_by}
use cinquain_meta.Tag.{cnode_find_tag, cnode_rm_tag, cnode_add_tag, negative}
use cinquain_meta.Cnode.{cnode_find_child}
use cinquain_meta.Create.{attach, attach_to_child}

module _ ⦃u : Library⦄ where
  -- The tag at `tag`, which is `t`, joins a table of tags in a cnode.
  pub record OverStep (s s' : State) (child tag : Ptr) (c : Cnode) (t : Tag) (rest : Table)
      : Type 0 where
    pub inodes : (q : Ptr) → s'.inodes q ≡ s.inodes q
    pub tags :
        (q : Ptr) → s'.tags q ≡ (if tag == q then some (record t { t_host = child }) else s.tags q)
    pub cnodes :
        (q : Ptr)
        → s'.cnodes q ≡ (
            if child == q
            then some (record c { ci_tags = u.add (by_ptr t.t_fs) tag rest })
            else s.cnodes q)
    pub dentries : (q : Ptr) → s'.dentries q ≡ s.dentries q
    pub fsnodes : (q : Ptr) → s'.fsnodes q ≡ s.fsnodes q

  -- No tag of the file system, or a negative one.
  abbrev pub Vacant : State → Ptr → Type 0
  Vacant s old =
      (old ≡ null) ⊎ ((old ≢ null) × (t : Tag) × (s.tags old ≡ some t) × (t.t_inode ≡ null))

  attach_to_child-run :
      (s : State) (child fs tag old : Ptr) (c : Cnode) (t : Tag)
      → s.cnodes child ≡ some c
      → IsTable c.ci_tags
      → u.find (by_ptr fs) c.ci_tags ≡ old
      → Vacant s old
      → s.tags tag ≡ some t
      → (rest : Table) × (s' : State) × IsTable rest
        × (u.find (by_ptr fs) rest ≡ null)
        × (attach_to_child child fs tag s ≡ ret success s')
        × OverStep s s' child tag c t rest
  unfolding attach_to_child cnode_find_tag cnode_rm_tag cnode_add_tag negative
  attach_to_child-run s child fs tag old c t at_c is by (inl gone) at_t = (
    c.ci_tags,
    left_by s (attach_to_child child fs tag s),
    is,
    by ∙ gone,
    ground arith,
    record {
      inodes = λ q. ground arith;
      tags = λ q. ground arith;
      cnodes = λ q. ground arith;
      dentries = λ q. ground arith;
      fsnodes = λ q. ground arith;
    },
  )
  attach_to_child-run s child fs tag old c t at_c is by (inr (ne, v, at_old, neg)) at_t = (
    u.delete old c.ci_tags,
    left_by s (attach_to_child child fs tag s),
    IsTable-delete old c.ci_tags is,
    find-delete old (by_ptr fs) c.ci_tags is ∙ rw (by, ==_refl old) refl,
    ground arith,
    record {
      inodes = λ q. ground arith;
      tags = λ q. ground arith;
      cnodes = λ q. ground arith;
      dentries = λ q. ground arith;
      fsnodes = λ q. ground arith;
    },
  )

  pub attach-run :
      (s : State) (parent fs tag child : Ptr) (name : List ℕ) (pc c : Cnode) (t : Tag)
      → s.cnodes parent ≡ some pc
      → u.find (by_str name) pc.ci_children ≡ child
      → child ≢ null
      → s.cnodes child ≡ some c
      → IsTable c.ci_tags
      → Vacant s (u.find (by_ptr fs) c.ci_tags)
      → s.tags tag ≡ some t
      → (rest : Table) × (s' : State) × IsTable rest
        × (u.find (by_ptr fs) rest ≡ null)
        × (attach parent name fs tag s ≡ ret success s')
        × OverStep s s' child tag c t rest
  unfolding attach cnode_find_child
  attach-run s parent fs tag child name pc c t at_p by ne at_c is free at_t =
      let (rest, s', is', absent, ran, g) =
        attach_to_child-run s child fs tag (u.find (by_ptr fs) c.ci_tags) c t at_c is refl free
          at_t in
      let c_ne : (child == null) ≡ false = ground arith in
      (rest, s', is', absent, rw (at_p, by, c_ne, ran), g)
