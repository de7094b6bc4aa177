-- ===== src/Tests/Calls.antt =====
-- Two calls at the concrete memory: `b` removes `f`, and makes `g`.
use cinquain_meta.Common.{◌≡◌, refl, subst, none, arith, ◌==◌, str_eq, Bool-cases, inl, inr}
use cinquain_meta.Containers.{Ptr, assoc, IsTable}
use cinquain_meta.Containers.Laws.{plain_lists}
use cinquain_meta.Memory.{State, Cnode}
use cinquain_meta.Memory.Actions.{ret, left_by}
use cinquain_meta.Tag.{
  tag_new, inc_nchild, i_cnode, i_tag, cnode_find_tag, tag_new_with, cnode_add_tag,
}
use cinquain_meta.Cnode.{cnode_find_child, cnode_new, cnode_add_child}
use cinquain_meta.Remove.{cinq_unlink, detach, stamp}
use cinquain_meta.Vfs.{ihold, new_inode}
use cinquain_meta.Dcache.{d_instantiate}
use cinquain_meta.Refs.{cinq_get_inode, local_inc_ref}
use cinquain_meta.Create.{
  take_request, cinq_create, cinq_mkinode, attach, attach_to_new, attach_to_child, publish,
}
use cinquain_meta.Calls.{unlink, create, perform}
use cinquain_meta.Valid.{Valid}
use cinquain_meta.Valid.Served.{begun, served, Served-Valid}
use cinquain_meta.Tests.{dir_cnode, file_cnode, memory, sub_cnode}

abbrev IsSound : Cnode → Type 0
IsSound c = IsTable c.ci_tags × IsTable c.ci_children

memory-Valid : Valid memory
unfolding assoc str_eq
memory-Valid = record {
  low = omega arith;
  no_cnode = λ q above. ground arith;
  null_tag = refl;
  tables = λ q c at. elim (Bool-cases (q == 20)) [
    | inl e ↦
        let same : dir_cnode ≡ c = ground arith in
        subst IsSound same ((omega arith, refl, tt), (omega arith, refl, (omega arith, refl, tt)))
    | inr e ↦ elim (Bool-cases (q == 21)) [
      | inl d ↦
          let same : file_cnode ≡ c = ground arith in
          subst IsSound same ((omega arith, refl, tt), tt)
      | inr d ↦
          let same : sub_cnode ≡ c = ground arith in
          subst IsSound same ((omega arith, refl, tt), tt)
    ]
  ];
}

after_unlink : State
after_unlink = left_by memory (perform 5 (unlink 41 51) memory)

unlink_served : perform 5 (unlink 41 51) memory ≡ ret tt after_unlink
unfolding after_unlink perform cinq_unlink detach stamp i_cnode i_tag cnode_find_child
    cnode_find_tag tag_new_with cnode_add_tag assoc str_eq
unlink_served = refl

after_create : State
after_create = left_by after_unlink (perform 5 (create 41 50 0x1ff none) after_unlink)

create_served : perform 5 (create 41 50 0x1ff none) after_unlink ≡ ret tt after_create
unfolding after_create after_unlink perform cinq_unlink detach stamp i_cnode i_tag cnode_find_child
    cnode_find_tag tag_new_with cnode_add_tag assoc str_eq cinq_create take_request cinq_mkinode
    cinq_get_inode new_inode tag_new attach attach_to_new attach_to_child publish d_instantiate
    local_inc_ref inc_nchild cnode_new cnode_add_child ihold
create_served = refl

Served-Valid_example : Valid after_create × ((q : Ptr) → after_create.fsnodes q ≡ memory.fsnodes q)
Served-Valid_example = Served-Valid memory after_create memory-Valid (
    served after_unlink after_create 5 (create 41 50 0x1ff none)
      (served memory after_unlink 5 (unlink 41 51) begun tt unlink_served) tt create_served)
