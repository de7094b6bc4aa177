-- ===== src/Attr/Stat.antt =====
-- generic_fillattr and simple_getattr of vfs.c, with struct kstat of vfs.h.
--
-- The device of a super block, which no code of the program sets, is a parameter. The structure the
-- caller hands over, every field of which is written, is the value that comes with 0.
use cinquain_meta.Common.{
  ℕ, ◌^◌, ◌≡◌, refl, inl, inr, ap, arith, false, some, ◌==◌, ◌&&◌, not, if◌then◌else◌,
}
use cinquain_meta.Containers.{Ptr, null}
use cinquain_meta.Errno.{success, Result, ok}
use cinquain_meta.Memory.{State, Inode, Dentry, Tag}
use cinquain_meta.Attr.{Iattr, has_bit, cinq_setattr}
use cinquain_meta.Attr.Fields.{resizes, has_size, cinq_setattr-changed}
use cinquain_meta.Memory.Actions.{M, fault, pure, ◌>>=◌, inode_at, dentry_at, ret}

-- struct kstat
pub record Kstat : Type 0 where
  pub ino : Ptr
  pub dev : ℕ
  pub mode : ℕ
  pub nlink : ℕ
  pub uid : ℕ
  pub gid : ℕ
  pub rdev : ℕ
  pub size : ℕ
  pub atime : ℕ
  pub mtime : ℕ
  pub ctime : ℕ
  pub blksize : ℕ
  pub blocks : ℕ

unfoldable pub generic_fillattr : (Ptr → ℕ) → Inode → Kstat
generic_fillattr s_dev i = record {
  ino = i.i_ino;
  dev = s_dev i.i_sb;
  mode = i.i_mode;
  nlink = i.i_nlink;
  uid = i.i_uid;
  gid = i.i_gid;
  rdev = i.i_rdev;
  size = i.i_size;
  atime = i.i_atime;
  mtime = i.i_mtime;
  ctime = i.i_ctime;
  blksize = 2 ^ i.i_blkbits;
  blocks = i.i_blocks;
}

unfoldable pub simple_getattr : (Ptr → ℕ) → Ptr → M (Result Kstat)
unfolding generic_fillattr
simple_getattr s_dev dentry = do
  d ← dentry_at dentry
  i ← inode_at d.d_inode
  if i.i_sb == null then (λ _. fault) else pure (ok (generic_fillattr s_dev i))

-- What a stat becomes by a change of attributes at the time `now`.
abbrev pub restat : Iattr → ℕ → Kstat → Kstat
restat a now st =
    let new_size = has_bit a.ia_valid 3 && not (a.ia_size == st.size) in
    record st {
      size = if new_size then a.ia_size else st.size;
      mode = if has_bit a.ia_valid 0 then a.ia_mode else st.mode;
      uid = if has_bit a.ia_valid 1 then a.ia_uid else st.uid;
      gid = if has_bit a.ia_valid 2 then a.ia_gid else st.gid;
      atime = if has_bit a.ia_valid 4 then a.ia_atime else st.atime;
      mtime = if has_bit a.ia_valid 5 then a.ia_mtime else if new_size then now else st.mtime;
      ctime = if has_bit a.ia_valid 6 then a.ia_ctime else if new_size then now else st.ctime;
    }

-- Around a cinq_setattr of an inode with a super block and a tag, and with a size if that is to
-- change, simple_getattr succeeds and changes nothing: after it, the attributes given are the ones
-- reported, a new size has set the times of change to now where they are not given, and every
-- other field is reported as before, the link count and the device included.
pub cinq_setattr-simple_getattr :
    (s : State) (dentry : Ptr) (a : Iattr) (d : Dentry) (i : Inode) (t : Tag) (s_dev : Ptr → ℕ)
    → s.dentries dentry ≡ some d
    → s.inodes d.d_inode ≡ some i
    → s.tags i.i_ino ≡ some t
    → i.i_sb == null ≡ false
    → resizes a i && not (has_size i t) ≡ false
    → (st : Kstat) × (s' : State) × (simple_getattr s_dev dentry s ≡ ret (ok st) s)
      × (cinq_setattr dentry a s ≡ ret success s')
      × (simple_getattr s_dev dentry s' ≡ ret (ok (restat a s.now st)) s')
unfolding simple_getattr generic_fillattr
cinq_setattr-simple_getattr s dentry a d i t s_dev at_d at_i at_t sb sized =
    elim (cinq_setattr-changed s dentry a d i t at_d at_i at_t) [
      | inl (unsized, _) ↦ ground arith
      | inr (_, s', set, at_i', _, only) ↦ (
        generic_fillattr s_dev i,
        s',
        rw (at_d, at_i, sb) refl,
        set,
        rw (ap (λ (v : State). v.dentries dentry) only, at_d, at_i', sb) refl,
      )
    ]
