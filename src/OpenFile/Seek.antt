-- ===== src/OpenFile/Seek.antt =====
-- vfs.c: generic_file_llseek. The limit s_maxbytes is the one that cinq_fill_super_ sets.
use cinquain_meta.Common.{
  ℕ, ◌+◌, ◌-◌, ◌%◌, ◌^◌, ◌<◌, ◌≡◌, refl, ap, inl, inr, Bool, true, false, some, ◌==◌, ◌&&◌, ltb,
  if◌then◌else◌, arith, Bool-cases,
}
use cinquain_meta.Errno.{einval, eoverflow, Status, success, failure, Result, ok, err}
use cinquain_meta.File.{File, is_negative}
use cinquain_meta.Memory.{State, Dentry, Inode}
use cinquain_meta.Memory.Actions.{M, ret, pure, ◌>>=◌, inode_at, dentry_at}
use cinquain_meta.Attr.{has_bit}

-- a > b, of two loff_t
abbrev pub exceeds : ℕ → ℕ → Bool
exceeds a b = ltb ((b + 2 ^ 63) % 2 ^ 64) ((a + 2 ^ 63) % 2 ^ 64)

abbrev pub max_lfs_filesize : ℕ
max_lfs_filesize = 2 ^ 63 - 1

-- __negative_fpos_check; pos + count is a sum of `unsigned long`.
unfoldable pub negative_fpos_check : File → ℕ → ℕ → Status
negative_fpos_check file pos count =
    if is_negative pos && ltb ((pos + count) % 2 ^ 64) pos
    then failure eoverflow
    else if has_bit file.f_mode 13
    then success
    else failure einval

abbrev pub failed : Status → Bool
failed success = false
failed (failure e) = true

-- the limits, and the position that is set
unfoldable pub seek_to : File → ℕ → Result (ℕ × File)
unfolding negative_fpos_check
seek_to file offset =
    if is_negative offset && failed (negative_fpos_check file offset 0)
    then err einval
    else if exceeds offset max_lfs_filesize
    then err einval
    else ok (offset, record file { f_pos = offset })

unfoldable pub generic_file_llseek : File → ℕ → ℕ → M (Result (ℕ × File))
unfolding seek_to
generic_file_llseek file offset origin = do
  d ← dentry_at file.f_dentry
  i ← inode_at d.d_inode
  pure (
      if origin == 2
      then seek_to file ((offset + i.i_size) % 2 ^ 64)
      else if origin == 1
      then if offset == 0
        then ok (file.f_pos, file)
        else seek_to file ((offset + file.f_pos) % 2 ^ 64)
      else seek_to file offset)

-- the offset that is asked for
abbrev pub target : File → Inode → ℕ → ℕ → ℕ
target file i offset origin =
    if origin == 2
    then (offset + i.i_size) % 2 ^ 64
    else if origin == 1
    then (offset + file.f_pos) % 2 ^ 64
    else offset

seek_to-cases :
    (file : File) (to : ℕ)
    → has_bit file.f_mode 13 ≡ false
    → to < 2 ^ 64
    → seek_to file to
      ≡ (if ltb to (2 ^ 63) then ok (to, record file { f_pos = to }) else err einval)
unfolding seek_to negative_fpos_check
seek_to-cases file to signed small = elim (Bool-cases (ltb to (2 ^ 63))) [
  | inl fits ↦
      let plus : is_negative to ≡ false = ground arith in
      let below : exceeds to max_lfs_filesize ≡ false = ground arith in rw (fits, plus, below) refl
  | inr negative ↦
      let minus : is_negative to ≡ true = ground arith in
      let no_carry : ltb ((to + 0) % 2 ^ 64) to ≡ false = ground arith in
      rw (negative, minus, no_carry, signed) refl
]

-- generic_file_llseek of a file without FMODE_UNSIGNED_OFFSET, at a position that is not negative: the
-- target is returned and is the new position where it is not negative, and EINVAL is returned where it
-- is; the memory does not change.
pub generic_file_llseek-target :
    (s : State) (file : File) (d : Dentry) (i : Inode) (offset origin : ℕ)
    → s.dentries file.f_dentry ≡ some d
    → s.inodes d.d_inode ≡ some i
    → has_bit file.f_mode 13 ≡ false
    → file.f_pos < 2 ^ 63
    → offset < 2 ^ 64
    → let to = target file i offset origin in
      generic_file_llseek file offset origin s
      ≡ ret (if ltb to (2 ^ 63) then ok (to, record file { f_pos = to }) else err einval) s
unfolding generic_file_llseek
generic_file_llseek-target s file d i offset origin at_d at_i signed here small =
    elim (Bool-cases (origin == 2)) [
      | inl to_end ↦
          rw (at_d, at_i, to_end)
            (ap (λ r. ret r s)
              (seek_to-cases file ((offset + i.i_size) % 2 ^ 64) signed (omega arith)))
      | inr not_end ↦ elim (Bool-cases (origin == 1)) [
        | inl relative ↦ elim (Bool-cases (offset == 0)) [
          | inl asked ↦
              let same : (offset + file.f_pos) % 2 ^ 64 ≡ file.f_pos = ground arith in
              let fits : ltb file.f_pos (2 ^ 63) ≡ true = ground arith in
              rw (at_d, at_i, not_end, relative, asked, same, fits) refl
          | inr moves ↦
              rw (at_d, at_i, not_end, relative, moves)
                (ap (λ r. ret r s)
                  (seek_to-cases file ((offset + file.f_pos) % 2 ^ 64) signed (omega arith)))
        ]
        | inr absolute ↦
            rw (at_d, at_i, not_end, absolute)
              (ap (λ r. ret r s) (seek_to-cases file offset signed small))
      ]
    ]
