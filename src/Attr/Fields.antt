-- ===== src/Attr/Fields.antt =====
-- cinq_setattr, field by field.
use cinquain_meta.Common.{
  ℕ, ◌≡◌, ◌≢◌, refl, inl, inr, ◌⊎◌, Bool, true, false, some, ◌==◌, ◌&&◌, ◌||◌, not, if◌then◌else◌,
  arith, Bool-cases, ==_refl,
}
use cinquain_meta.Containers.{Ptr}
use cinquain_meta.Errno.{success, failure, einval}
use cinquain_meta.Memory.{State, Inode, Tag, Dentry}
use cinquain_meta.Memory.Actions.{ret, update}
use cinquain_meta.Vfs.{s_isdir, s_isreg, s_islnk}
use cinquain_meta.Tag.{i_tag}
use cinquain_meta.Attr.{Iattr, has_bit, setattr_copy, is_link, cinq_setsize, cinq_setattr}

-- ATTR_SIZE, with another size than the inode's
abbrev pub resizes : Iattr → Inode → Bool
resizes a i = has_bit a.ia_valid 3 && not (a.ia_size == i.i_size)

-- a file, a directory or a link, and no target of a link in the tag
abbrev pub has_size : Inode → Tag → Bool
has_size i t =
    (s_isreg i.i_mode || s_isdir i.i_mode || s_islnk i.i_mode) && not (is_link t.t_symname)

-- the inode behind it
abbrev pub changed : Iattr → ℕ → Inode → Inode
changed a now i = record i {
  i_size = if resizes a i then a.ia_size else i.i_size;
  i_mode = if has_bit a.ia_valid 0 then a.ia_mode else i.i_mode;
  i_uid = if has_bit a.ia_valid 1 then a.ia_uid else i.i_uid;
  i_gid = if has_bit a.ia_valid 2 then a.ia_gid else i.i_gid;
  i_atime = if has_bit a.ia_valid 4 then a.ia_atime else i.i_atime;
  i_mtime = if has_bit a.ia_valid 5 then a.ia_mtime else if resizes a i then now else i.i_mtime;
  i_ctime = if has_bit a.ia_valid 6 then a.ia_ctime else if resizes a i then now else i.i_ctime;
}

-- cinq_setattr of an inode with a tag: where the size is to change and the inode has none, EINVAL is
-- returned and nothing changes; in every other case it succeeds, each attribute given is set, a new
-- size sets the times of change to now where they are not given, and nothing else changes.
pub cinq_setattr-changed :
    (s : State) (dentry : Ptr) (a : Iattr) (d : Dentry) (i : Inode) (t : Tag)
    → s.dentries dentry ≡ some d
    → s.inodes d.d_inode ≡ some i
    → s.tags i.i_ino ≡ some t
    → ((resizes a i && not (has_size i t) ≡ true)
        × (cinq_setattr dentry a s ≡ ret (failure einval) s))
      ⊎ ((resizes a i && not (has_size i t) ≡ false)
          × (s' : State) × (cinq_setattr dentry a s ≡ ret success s')
          × (s'.inodes d.d_inode ≡ some (changed a s.now i))
          × ((q : Ptr) → d.d_inode ≢ q → s'.inodes q ≡ s.inodes q)
          × (s' ≡ record s { inodes = s'.inodes }))
unfolding cinq_setattr cinq_setsize setattr_copy i_tag is_link
cinq_setattr-changed s dentry a d i t at_d at_i at_t = elim (Bool-cases (resizes a i)) [
  | inr same_size ↦ inr (
    rw same_size refl,
    record s { inodes = update s.inodes d.d_inode (some (changed a s.now i)) },
    rw (at_d, at_i, same_size, at_i) refl,
    ground arith,
    λ q ne. ground arith,
    refl,
  )
  | inl new_size ↦ elim (Bool-cases (s_isreg i.i_mode || s_isdir i.i_mode || s_islnk i.i_mode)) [
    | inr other ↦ inl (rw (new_size, other) refl, rw (at_d, at_i, new_size, at_i, other) refl)
    | inl typed ↦ elim (Bool-cases (is_link t.t_symname)) [
      | inl link ↦
          inl (
            rw (new_size, typed, link) refl,
            rw (at_d, at_i, new_size, at_i, typed, at_t, link) refl,
          )
      | inr sized ↦
          let step : Inode = record i { i_size = a.ia_size; i_mtime = s.now; i_ctime = s.now } in
          inr (
            rw (new_size, typed, sized) refl,
            record s {
              inodes =
                  update (update s.inodes d.d_inode (some step)) d.d_inode
                    (some (changed a s.now i));
            },
            rw (at_d, at_i, new_size, at_i, typed, at_t, sized, at_i) (rw (==_refl d.d_inode) refl),
            ground arith,
            λ q ne. ground arith,
            refl,
          )
    ]
  ]
]
