-- ===== src/OpenFile.antt =====
-- vfs.c: opening files, and the accesses for writing that an inode counts. stub.c: get_empty_filp.
--
-- A word of flags is the bit pattern of an `int`; i_writecount is that of an `int`, and negative from
-- 2 ^ 31 on. The file that malloc gives is a value here, so put_filp, which frees it, drops the value.
pub mod Access
pub mod Modes
pub mod Seek
use cinquain_meta.Common.{
  ℕ, ◌+◌, ◌-◌, ◌*◌, ◌/◌, ◌%◌, ◌^◌, Bool, false, Option, none, some, ◌==◌, leb, ltb, if◌then◌else◌,
  inc32, dec32,
}
use cinquain_meta.Containers.{Ptr, null, Library}
use cinquain_meta.Errno.{Errno, enfile, etxtbsy, Status, success, failure, Result, ok, err}
use cinquain_meta.File.{File, blank_file}
use cinquain_meta.Memory.{FileOperations, empty_fops, dir_fops, file_fops}
use cinquain_meta.Memory.Actions.{
  M, pure, skip, ◌>>=◌, ◌>>◌, inode_at, set_inode, dentry_at, malloc,
}
use cinquain_meta.Attr.{has_bit}
use cinquain_meta.Dcache.{dput}
use cinquain_meta.Dir.{cinq_dir_open}

unfoldable pub get_write_access : Ptr → M Status
get_write_access inode = do
  i ← inode_at inode
  if leb (2 ^ 31) i.i_writecount
      then pure (failure etxtbsy)
      else do set_inode inode (λ v. record v { i_writecount = inc32 v.i_writecount }); pure success

unfoldable pub put_write_access : Ptr → M (Unit {0})
put_write_access inode = set_inode inode (λ v. record v { i_writecount = dec32 v.i_writecount })

-- i_writecount > 0
abbrev pub has_writers : ℕ → Bool
has_writers n = if n == 0 then false else ltb n (2 ^ 31)

unfoldable pub deny_write_access : File → M Status
deny_write_access file = do
  d ← dentry_at file.f_dentry
  i ← inode_at d.d_inode
  if has_writers i.i_writecount then pure (failure etxtbsy) else do
    set_inode d.d_inode (λ v. record v { i_writecount = dec32 v.i_writecount })
    pure success

-- FMODE_LSEEK, FMODE_PREAD, FMODE_PWRITE and FMODE_PATH
abbrev pub fmode_lseek : ℕ
fmode_lseek = 0x4

abbrev pub fmode_pread : ℕ
fmode_pread = 0x8

abbrev pub fmode_pwrite : ℕ
fmode_pwrite = 0x10

abbrev pub fmode_path : ℕ
fmode_path = 0x4000

-- OPEN_FMODE: the two low bits of `flag + 1`, and __FMODE_NONOTIFY, the bit 24
abbrev pub open_fmode : ℕ → ℕ
open_fmode flag = (flag + 1) % 4 + (if has_bit flag 24 then 2 ^ 24 else 0)

-- O_PATH is the bit 21.
abbrev pub mode_of : ℕ → ℕ
mode_of flags =
    if has_bit flags 21
    then fmode_path
    else open_fmode flags + fmode_lseek + fmode_pread + fmode_pwrite

-- f_flags & ~(O_CREAT | O_EXCL | O_NOCTTY | O_TRUNC), the bits 6 to 9
abbrev pub without_creation : ℕ → ℕ
without_creation flags = flags - flags / 2 ^ 6 % 2 ^ 4 * 2 ^ 6

-- f_mode & FMODE_WRITE
abbrev pub writes : ℕ → Bool
writes mode = has_bit mode 1

-- f_op->open
abbrev pub open_of : FileOperations → Option (File → M (Result File))
open_of dir_fops = some cinq_dir_open
open_of file_fops = none
open_of empty_fops = none

abbrev pub or_own :
    Option (File → M (Result File)) → FileOperations → Option (File → M (Result File))
or_own none fop = open_of fop
or_own (some opener) fop = some opener

unfoldable pub get_empty_filp : M (Option File)
get_empty_filp = do f ← malloc; pure (if f == null then none else some blank_file)

module _ ⦃u : Library⦄ where
  -- the label cleanup_file
  abbrev pub cleanup_file : ℕ → Ptr → Errno → M (Result File)
  cleanup_file fuel dentry error = do dput fuel dentry; pure (err error)

  -- `open`, where there is one, and the label cleanup_all
  unfoldable pub call_open :
      ℕ → Ptr → Ptr → File → Option (File → M (Result File)) → M (Result File)
  call_open fuel dentry inode f none = pure (ok (record f { f_flags = without_creation f.f_flags }))
  call_open fuel dentry inode f (some opener) = do
    opened ← opener f
    elim opened [
      | ok f' ↦ pure (ok (record f' { f_flags = without_creation f'.f_flags }))
      | err error ↦ do
        (if writes f.f_mode then put_write_access inode else skip)
        cleanup_file fuel dentry error
    ]

  -- __dentry_open, behind its request for access
  unfoldable pub open_granted :
      ℕ → Ptr → Ptr → File → Option (File → M (Result File)) → M (Result File)
  unfolding call_open
  open_granted fuel dentry inode f opener =
      if has_bit f.f_mode 14 then pure (ok (record f { f_op = empty_fops })) else do
        i ← inode_at inode
        call_open fuel dentry inode (record f { f_op = i.i_fop }) (or_own opener i.i_fop)

  unfoldable pub dentry_open_with :
      ℕ → Ptr → File → Option (File → M (Result File)) → M (Result File)
  unfolding get_write_access open_granted
  dentry_open_with fuel dentry f opener = do
    d ← dentry_at dentry
    let f' = record f { f_mode = mode_of f.f_flags; f_dentry = dentry; f_pos = 0 }
    error ← (if writes (mode_of f.f_flags) then get_write_access d.d_inode else pure success)
    elim error [
      | failure e ↦ cleanup_file fuel dentry e
      | success ↦ open_granted fuel dentry d.d_inode f' opener
    ]

  unfoldable pub dentry_open : ℕ → Ptr → ℕ → M (Result File)
  unfolding get_empty_filp dentry_open_with
  dentry_open fuel dentry flags = do
    f ← get_empty_filp
    elim f [
      | none ↦ cleanup_file fuel dentry enfile
      | some file ↦ dentry_open_with fuel dentry (record file { f_flags = flags }) none
    ]
