-- ===== src/OpenFile/Modes.antt =====
-- dentry_open of a regular file, by the access mode in its flags.
use cinquain_meta.Common.{
  ℕ, ◌+◌, ◌-◌, ◌%◌, ◌^◌, ◌≡◌, ◌≢◌, refl, inl, inr, Bool, false, none, some, ◌==◌, ◌||◌, leb,
  if◌then◌else◌, arith, Bool-cases, inc32,
}
use cinquain_meta.Containers.{Ptr, null, Library}
use cinquain_meta.Errno.{ok, etxtbsy}
use cinquain_meta.File.{File}
use cinquain_meta.Memory.{State, Dentry, Inode, file_fops}
use cinquain_meta.Memory.Actions.{ret}
use cinquain_meta.Attr.{has_bit}
use cinquain_meta.OpenFile.{
  get_empty_filp, mode_of, without_creation, writes, cleanup_file, call_open, open_granted,
  dentry_open_with, dentry_open,
}
use cinquain_meta.OpenFile.Access.{with_count, got-free, got-shut}

-- O_ACCMODE of the flags: O_WRONLY is 1 and O_RDWR is 2.
abbrev pub asks_to_write : ℕ → Bool
asks_to_write flags = (flags % 4 == 1) || (flags % 4 == 2)

writes-mode_of :
    (flags : ℕ) → has_bit flags 21 ≡ false → writes (mode_of flags) ≡ asks_to_write flags
writes-mode_of flags plain = ground arith

no_path : (flags : ℕ) → has_bit flags 21 ≡ false → has_bit (mode_of flags) 14 ≡ false
no_path flags plain = ground arith

-- the file that an open gives
abbrev pub opened_file : Ptr → ℕ → File
opened_file dentry flags = record {
  f_dentry = dentry;
  f_op = file_fops;
  f_flags = without_creation flags;
  f_mode = mode_of flags;
  f_pos = 0;
  private_data = null;
}

-- the memory behind the allocation of the file
abbrev pub allocated : State → State
allocated s = record s { brk = s.brk + 1; avail = s.avail - 1 }

module _ ⦃u : Library⦄ (s : State) (fuel : ℕ) (dentry : Ptr) (d : Dentry) (i : Inode) (flags : ℕ)
    (at_d : s.dentries dentry ≡ some d) (at_i : s.inodes d.d_inode ≡ some i)
    (regular : i.i_fop ≡ file_fops) (plain : has_bit flags 21 ≡ false) where
  granted-run :
      (t : State) (f : File) (j : Inode)
      → has_bit f.f_mode 14 ≡ false
      → t.inodes d.d_inode ≡ some j
      → j.i_fop ≡ file_fops
      → open_granted fuel dentry d.d_inode f none t
        ≡ ret (ok (record f { f_op = file_fops; f_flags = without_creation f.f_flags })) t
  unfolding open_granted call_open
  granted-run t f j real at op = rw (real, at, op) refl

  -- dentry_open of a regular file without O_PATH, where the file can be allocated: it counts a writer
  -- just where the flags ask for one, and fails with ETXTBSY, behind a dput, where they do and writing
  -- is denied.
  pub dentry_open-file :
      s.avail ≢ 0
      → s.brk ≢ null
      → dentry_open fuel dentry flags s ≡ (
          if asks_to_write flags
          then (if leb (2 ^ 31) i.i_writecount
              then cleanup_file fuel dentry etxtbsy (allocated s)
              else ret
                  (ok (opened_file dentry flags))
                  (with_count (allocated s) d.d_inode i (inc32 i.i_writecount)))
          else ret (ok (opened_file dentry flags)) (allocated s))
  unfolding dentry_open get_empty_filp dentry_open_with
  dentry_open-file room fresh =
      let got : (s.avail == 0) ≡ false = ground arith in
      let new : (s.brk == null) ≡ false = ground arith in
      let as_asked = writes-mode_of flags plain in
      let real = no_path flags plain in
      let f = record (opened_file dentry flags) { f_flags = flags } in
      elim (Bool-cases (asks_to_write flags)) [
        | inl asked ↦ elim (Bool-cases (leb (2 ^ 31) i.i_writecount)) [
          | inl shut ↦
              rw
                (
                  got,
                  new,
                  at_d,
                  as_asked,
                  asked,
                  got-shut d.d_inode (allocated s) i at_i shut,
                  shut,
                )
                refl
          | inr free ↦
              rw
                (
                  got,
                  new,
                  at_d,
                  as_asked,
                  asked,
                  got-free d.d_inode (allocated s) i at_i free,
                  free,
                )
                (granted-run (with_count (allocated s) d.d_inode i (inc32 i.i_writecount)) f
                  (record i { i_writecount = inc32 i.i_writecount }) real (ground arith) regular)
        ]
        | inr only_reads ↦
            rw (got, new, at_d, as_asked, only_reads)
              (granted-run (allocated s) f i real at_i regular)
      ]
