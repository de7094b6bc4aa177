-- ===== src/Valid/Tables.antt =====
-- The actions that write the table of a cnode.
use cinquain_meta.Common.{
  ℕ, ◌≡◌, ◌≢◌, refl, sym, ◌∙◌, subst, false, none, some, ◌==◌, arith, Bool-cases, ◌⊎◌, inl, inr,
  List, ltb, length,
}
use cinquain_meta.Containers.{Ptr, null, by_ptr, by_str, Library, IsTable}
use cinquain_meta.Containers.Laws.{IsTable-add}
use cinquain_meta.Memory.{State, Tag, Cnode}
use cinquain_meta.Memory.Actions.{update}
use cinquain_meta.Memory.Steady.{Post, Still, held}
use cinquain_meta.Vfs.{ihold}
use cinquain_meta.Tag.{blank_tag, tag_new_with, cnode_add_tag}
use cinquain_meta.Cnode.{cnode_new, cnode_add_child, blank_cnode}
use cinquain_meta.Valid.{Valid, Kept}

-- one cnode changes, and its tables stay tables
pub put-Valid :
    (s : State) (c : Ptr) (cn after : Cnode)
    → Valid s
    → s.cnodes c ≡ some cn
    → IsTable after.ci_tags
    → IsTable after.ci_children
    → Valid (record s { cnodes = update s.cnodes c (some after) })
put-Valid s c cn after v at tags children = record {
  low = v.low;
  null_tag = v.null_tag;
  no_cnode = λ q above.
      let ne : c ≢ q = λ e. ground (arith, v.no_cnode q above) in
      ground (arith, v.no_cnode q above);
  tables = λ q d at_d. elim (Bool-cases (c == q)) [
    | inl e ↦
        let same : after ≡ d = ground arith in
        (subst (λ x. IsTable x.ci_tags) same tags, subst (λ x. IsTable x.ci_children) same children)
    | inr e ↦ v.tables q d (ground arith)
  ];
}

-- Only the store of cnodes and malloc's next address count.
pub same-Valid :
    (s s' : State)
    → Valid s
    → ((q : Ptr) → s'.cnodes q ≡ s.cnodes q)
    → s'.brk ≡ s.brk
    → s'.tags null ≡ none
    → Valid s'
same-Valid s s' v cnodes brk null_tag = record {
  null_tag = null_tag;
  low = omega (arith, v.low, brk);
  no_cnode = λ q above. cnodes q ∙ v.no_cnode q (omega (arith, brk));
  tables = λ q c at. v.tables q c (sym (cnodes q) ∙ at);
}

-- a new tag, or NULL
pub record NewTag (fs : Ptr) (s : State) (p : Ptr) (s' : State) : Type 0 where
  pub still : Still s s'
  pub tag : (p ≡ null) ⊎ ((p ≢ null) × (t : Tag) × (s'.tags p ≡ some t) × (t.t_fs ≡ fs))

pub tag_new_with-NewTag :
    (s : State) (fs inode mode : ℕ) → Valid s → Post (NewTag fs s) (tag_new_with fs inode mode s)
unfolding tag_new_with ihold
tag_new_with-NewTag s fs inode mode v =
    let low = v.low in
    elim (Bool-cases (s.avail == 0)) [
      | inl full ↦ rw full (record {
        still = record {
          cnodes = λ q. refl;
          fsnodes = λ q. refl;
          brk = omega arith;
          null_tag = λ n. n;
        };
        tag = inl refl;
      })
      | inr room ↦
          let b0 : (s.brk == null) ≡ false = ground arith in
          elim (Bool-cases (inode == null)) [
            | inl none_given ↦
                rw (room, b0, none_given)
                  (record {
                    still = record {
                      cnodes = λ q. refl;
                      fsnodes = λ q. refl;
                      brk = omega arith;
                      null_tag = λ n. ground arith;
                    };
                    tag = inr (omega arith, blank_tag fs inode mode, ground arith, refl);
                  })
            | inr given ↦ elim (held (s.inodes inode)) [
              | inl gone ↦ rw (room, b0, given, gone) tt
              | inr (i, at_i) ↦
                  rw (room, b0, given, at_i)
                    (record {
                      still = record {
                        cnodes = λ q. refl;
                        fsnodes = λ q. refl;
                        brk = omega arith;
                        null_tag = λ n. ground arith;
                      };
                      tag = inr (omega arith, blank_tag fs inode mode, ground arith, refl);
                    })
            ]
          ]
    ]

-- a new cnode, or NULL
pub record NewCnode (name : List ℕ) (s : State) (p : Ptr) (s' : State) : Type 0 where
  pub kept : Kept s s'
  pub cnode :
      (p ≡ null)
      ⊎ ((p ≢ null)
          × (s.cnodes p ≡ none)
          × (s'.cnodes p ≡ some (blank_cnode p name))
          × ((q : Ptr) → q ≢ p → s'.cnodes q ≡ s.cnodes q))
  pub tags : (q : Ptr) → s'.tags q ≡ s.tags q

pub cnode_new-NewCnode :
    (s : State) (name : List ℕ) → Valid s → Post (NewCnode name s) (cnode_new name s)
unfolding cnode_new
cnode_new-NewCnode s name v =
    let low = v.low in
    elim (Bool-cases (s.avail == 0)) [
      | inl full ↦ rw full (record {
        kept = record { valid = v; fsnodes = λ q. refl };
        cnode = inl refl;
        tags = λ q. refl;
      })
      | inr room ↦
          let b0 : (s.brk == null) ≡ false = ground arith in
          elim (Bool-cases (ltb 255 (length name))) [
            | inl long ↦ rw (room, b0, long) tt
            | inr fits ↦
                rw (room, b0, fits)
                  (record {
                    kept = record {
                      valid = record {
                        low = omega arith;
                        null_tag = v.null_tag;
                        no_cnode = λ q above.
                            let ne : s.brk ≢ q = omega arith in
                            ground (arith, v.no_cnode q (omega arith));
                        tables = λ q c at. elim (Bool-cases (s.brk == q)) [
                          | inl e ↦
                              let same : blank_cnode s.brk name ≡ c = ground arith in
                              subst (λ x. IsTable x.ci_tags × IsTable x.ci_children) same (tt, tt)
                          | inr e ↦ v.tables q c (ground arith)
                        ];
                      };
                      fsnodes = λ q. refl;
                    };
                    cnode = inr (
                      omega arith,
                      v.no_cnode s.brk (omega arith),
                      ground arith,
                      λ q ne. ground arith,
                    );
                    tags = λ q. refl;
                  })
          ]
    ]

module _ ⦃u : Library⦄ where
  -- a cnode has a tag more, and no other changes
  abbrev pub Added : State → Ptr → Ptr → Cnode → Tag → State → Type 0
  Added s c tag cn t s' =
      Kept s s'
      × (s'.cnodes c ≡ some (record cn { ci_tags = u.add (by_ptr t.t_fs) tag cn.ci_tags }))
      × ((q : Ptr) → q ≢ c → s'.cnodes q ≡ s.cnodes q)

  pub add_tag-Added :
      (s : State) (c tag : Ptr) (cn : Cnode) (t : Tag)
      → Valid s
      → s.cnodes c ≡ some cn
      → s.tags tag ≡ some t
      → tag ≢ null
      → u.find (by_ptr t.t_fs) cn.ci_tags ≡ null
      → Post (λ a s'. Added s c tag cn t s') (cnode_add_tag c tag s)
  unfolding cnode_add_tag
  add_tag-Added s c tag cn t v at_c at_t ne absent =
      let (tags, children) = v.tables c cn at_c in
      let after : Cnode = record cn { ci_tags = u.add (by_ptr t.t_fs) tag cn.ci_tags } in
      let valid =
        put-Valid s c cn after v at_c (IsTable-add (by_ptr t.t_fs) tag cn.ci_tags tags absent ne)
          children in
      rw (at_t, at_c, at_t)
        (
          record {
            valid = same-Valid _ _ valid (λ q. refl) refl (ground (arith, v.null_tag));
            fsnodes = λ q. refl;
          },
          ground arith,
          λ q other. ground arith,
        )

  pub add_child-Kept :
      (s : State) (parent child : Ptr) (pc cc' : Cnode)
      → Valid s
      → s.cnodes parent ≡ some pc
      → s.cnodes child ≡ some cc'
      → parent ≢ child
      → child ≢ null
      → u.find (by_str cc'.ci_name) pc.ci_children ≡ null
      → Post (λ a s'. Kept s s') (cnode_add_child parent child s)
  unfolding cnode_add_child
  add_child-Kept s parent child pc cc' v at_p at_c apart ne absent =
      let (tags, children) = v.tables parent pc at_p in
      let (child_tags, child_children) = v.tables child cc' at_c in
      let after : Cnode = record pc {
        ci_children = u.add (by_str cc'.ci_name) child pc.ci_children;
      } in
      let valid =
        put-Valid s parent pc after v at_p tags
          (IsTable-add (by_str cc'.ci_name) child pc.ci_children children absent ne) in
      let other : (parent == child) ≡ false = ground arith in
      rw (at_c, at_p, other, at_c)
        (record {
          valid =
              put-Valid (record s { cnodes = update s.cnodes parent (some after) }) child cc'
                (record cc' { ci_parent = parent }) valid (ground arith) child_tags child_children;
          fsnodes = λ q. refl;
        })
