-- ===== src/Attr.antt =====
-- cinq_setattr of cnode.c, and setattr_copy and inode_change_ok of vfs.h.
pub mod Fields
pub mod Stat
use cinquain_meta.Common.{
  ℕ, ◌/◌, ◌%◌, ◌^◌, Bool, true, false, Option, none, some, List, ◌==◌, ◌&&◌, ◌||◌, not,
  if◌then◌else◌,
}
use cinquain_meta.Containers.{Ptr}
use cinquain_meta.Errno.{Status, success, failure, einval}
use cinquain_meta.Memory.{Inode}
use cinquain_meta.Memory.Actions.{
  M, pure, ◌>>=◌, ◌>>◌, tag_at, inode_at, set_inode, dentry_at, current_time,
}
use cinquain_meta.Vfs.{s_isdir, s_isreg, s_islnk}
use cinquain_meta.Tag.{i_tag}

-- struct iattr
pub record Iattr : Type 0 where
  pub ia_valid : ℕ
  pub ia_mode : ℕ
  pub ia_uid : ℕ
  pub ia_gid : ℕ
  pub ia_size : ℕ
  pub ia_atime : ℕ
  pub ia_mtime : ℕ
  pub ia_ctime : ℕ

-- attr->ia_valid & (1 << bit)
abbrev pub has_bit : ℕ → ℕ → Bool
has_bit w bit = w / 2 ^ bit % 2 == 1

-- ATTR_MODE, ATTR_UID, ATTR_GID, ATTR_SIZE, ATTR_ATIME, ATTR_MTIME and ATTR_CTIME are bits 0 to 6.
unfoldable pub setattr_copy : Iattr → Inode → Inode
setattr_copy a i = record i {
  i_mode = if has_bit a.ia_valid 0 then a.ia_mode else i.i_mode;
  i_uid = if has_bit a.ia_valid 1 then a.ia_uid else i.i_uid;
  i_gid = if has_bit a.ia_valid 2 then a.ia_gid else i.i_gid;
  i_atime = if has_bit a.ia_valid 4 then a.ia_atime else i.i_atime;
  i_mtime = if has_bit a.ia_valid 5 then a.ia_mtime else i.i_mtime;
  i_ctime = if has_bit a.ia_valid 6 then a.ia_ctime else i.i_ctime;
}

unfoldable pub is_link : Option (List ℕ) → Bool
is_link none = false
is_link (some _) = true

unfoldable pub cinq_setsize : Ptr → ℕ → M Status
unfolding i_tag is_link
cinq_setsize inode newsize = do
  i ← inode_at inode
  if not (s_isreg i.i_mode || s_isdir i.i_mode || s_islnk i.i_mode)
      then pure (failure einval)
      else do
        t ← tag_at i.i_ino
        if is_link t.t_symname then pure (failure einval) else do
          now ← current_time
          set_inode inode (λ v. record v { i_size = newsize; i_mtime = now; i_ctime = now })
          pure success

-- inode_change_ok allows every change.
unfoldable pub cinq_setattr : Ptr → Iattr → M Status
unfolding cinq_setsize setattr_copy
cinq_setattr dentry attr = do
  d ← dentry_at dentry
  i ← inode_at d.d_inode
  error ←
      (if has_bit attr.ia_valid 3 && not (attr.ia_size == i.i_size)
        then cinq_setsize d.d_inode attr.ia_size
        else pure success)
  elim error [
    | failure e ↦ pure (failure e)
    | success ↦ do set_inode d.d_inode (setattr_copy attr); pure success
  ]
