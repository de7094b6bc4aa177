-- ===== src/Link/Kept.antt =====
-- What tag_child_with leaves as it was, at a cnode of any tags.
use cinquain_meta.Common.{
  ◌+◌, ◌<◌, ◌≡◌, ◌≢◌, refl, inl, inr, some, ◌==◌, arith, Bool-cases, inc32, dec32,
}
use cinquain_meta.Containers.{Ptr, null, by_ptr, Library}
use cinquain_meta.Memory.{State, Inode, Tag, Cnode}
use cinquain_meta.Memory.Actions.{left_by}
use cinquain_meta.Tag.{cnode_find_tag, cnode_add_tag, tag_new_with, tag_reset_inode, tag_drop_inode}
use cinquain_meta.Vfs.{ihold, iput}
use cinquain_meta.Create.Request.{IsFresh}
use cinquain_meta.Link.{tag_child_with}
use cinquain_meta.Link.Place.{Beside}
use cinquain_meta.Link.Tagged.{CanTag}

module _ ⦃u : Library⦄ (s : State) (c fs inode : Ptr) (cn : Cnode) (i : Inode)
    (at : s.cnodes c ≡ some cn) (at_i : s.inodes inode ≡ some i) (ne : inode ≢ null)
    (fresh : IsFresh s) where
  new_tag-Beside :
      u.find (by_ptr fs) cn.ci_tags ≡ null
      → 0 < s.avail
      → Beside s (left_by s (tag_child_with c fs inode s)) c (u.find (by_ptr fs) cn.ci_tags)
  unfolding tag_child_with cnode_find_tag tag_new_with cnode_add_tag ihold
  new_tag-Beside absent room =
      let low = fresh.brk_pos in
      record {
        dentries = λ q. ground arith;
        fsnodes = λ q. ground arith;
        inodes = λ q j at_j. elim (Bool-cases (inode == q)) [
          | inl e ↦ (
            record i { i_count = inc32 i.i_count },
            ground arith,
            ground arith,
            ground arith,
            ground arith,
          )
          | inr e ↦ (j, ground arith, refl, refl, refl)
        ];
        tags = λ q t at_t.
            let other : q ≢ s.brk = λ e. ground (arith, fresh.no_tag q) in
            (t, ground arith, refl, refl, refl, λ x. refl);
        cnodes = λ q v at_v. elim (Bool-cases (c == q)) [
          | inl e ↦ (
            record cn { ci_tags = u.add (by_ptr fs) s.brk cn.ci_tags },
            ground arith,
            λ x. ground arith,
            λ k there. ground arith,
          )
          | inr e ↦ (v, ground arith, λ x. refl, λ k there. refl)
        ];
        no_tag = ground (arith, fresh.no_tag (s.brk + 1));
        low = ground arith;
        room = ground arith;
      }

  -- in the place of no inode
  own_tag-Beside_negative :
      (t : Tag)
      → u.find (by_ptr fs) cn.ci_tags ≢ null
      → s.tags (u.find (by_ptr fs) cn.ci_tags) ≡ some t
      → t.t_inode ≡ null
      → Beside s (left_by s (tag_child_with c fs inode s)) c (u.find (by_ptr fs) cn.ci_tags)
  unfolding tag_child_with cnode_find_tag tag_reset_inode tag_drop_inode ihold
  own_tag-Beside_negative t there at_t negative =
      let low = fresh.brk_pos in
      record {
        dentries = λ q. ground arith;
        fsnodes = λ q. ground arith;
        inodes = λ q j at_j. elim (Bool-cases (inode == q)) [
          | inl e ↦ (
            record i { i_count = inc32 i.i_count },
            ground arith,
            ground arith,
            ground arith,
            ground arith,
          )
          | inr e ↦ (j, ground arith, refl, refl, refl)
        ];
        tags = λ q v at_v. elim (Bool-cases (u.find (by_ptr fs) cn.ci_tags == q)) [
          | inl e ↦ (
            record t { t_inode = inode },
            ground arith,
            ground arith,
            ground arith,
            ground arith,
            λ x. ground arith,
          )
          | inr e ↦ (v, ground arith, refl, refl, refl, λ x. refl)
        ];
        cnodes = λ q v at_v. (v, ground arith, λ x. refl, λ k there. refl);
        no_tag = ground (arith, fresh.no_tag s.brk);
        low = ground arith;
        room = ground arith;
      }

  -- in the place of another inode
  own_tag-Beside :
      (t : Tag) (j : Inode)
      → u.find (by_ptr fs) cn.ci_tags ≢ null
      → s.tags (u.find (by_ptr fs) cn.ci_tags) ≡ some t
      → s.inodes t.t_inode ≡ some j
      → t.t_inode ≢ null
      → Beside s (left_by s (tag_child_with c fs inode s)) c (u.find (by_ptr fs) cn.ci_tags)
  unfolding tag_child_with cnode_find_tag tag_reset_inode tag_drop_inode ihold iput
  own_tag-Beside t j there at_t at_j live =
      let low = fresh.brk_pos in
      record {
        dentries = λ q. ground arith;
        fsnodes = λ q. ground arith;
        inodes = λ q v at_v. elim (Bool-cases (inode == q)) [
          | inl e ↦ elim (Bool-cases (t.t_inode == inode)) [
            | inl d ↦ (
              record j { i_count = inc32 (dec32 j.i_count) },
              ground arith,
              ground arith,
              ground arith,
              ground arith,
            )
            | inr d ↦ (
              record i { i_count = inc32 i.i_count },
              ground arith,
              ground arith,
              ground arith,
              ground arith,
            )
          ]
          | inr e ↦ elim (Bool-cases (t.t_inode == q)) [
            | inl d ↦ (
              record j { i_count = dec32 j.i_count },
              ground arith,
              ground arith,
              ground arith,
              ground arith,
            )
            | inr d ↦ (v, ground arith, refl, refl, refl)
          ]
        ];
        tags = λ q v at_v. elim (Bool-cases (u.find (by_ptr fs) cn.ci_tags == q)) [
          | inl e ↦ (
            record t { t_inode = inode },
            ground arith,
            ground arith,
            ground arith,
            ground arith,
            λ x. ground arith,
          )
          | inr e ↦ (v, ground arith, refl, refl, refl, λ x. refl)
        ];
        cnodes = λ q v at_v. (v, ground arith, λ x. refl, λ k there. refl);
        no_tag = ground (arith, fresh.no_tag s.brk);
        low = ground arith;
        room = ground arith;
      }

  pub retag-Beside :
      CanTag s cn fs
      → Beside s (left_by s (tag_child_with c fs inode s)) c (u.find (by_ptr fs) cn.ci_tags)
  retag-Beside (inl (absent, is, room, low)) = new_tag-Beside absent room
  retag-Beside (inr (there, t, at_t, mine, inl negative)) =
      own_tag-Beside_negative t there at_t negative
  retag-Beside (inr (there, t, at_t, mine, inr (j, at_j))) = elim (Bool-cases (t.t_inode == null)) [
    | inl e ↦ own_tag-Beside_negative t there at_t (ground arith)
    | inr e ↦ own_tag-Beside t j there at_t at_j (ground arith)
  ]
