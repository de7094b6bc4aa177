-- ===== src/Handle.antt =====
-- file.c: the file handles of NFS exports, cinq_encode_fh and cinq_fh_to_dentry. A handle is four
-- 32-bit words: the identifier of a file system node and the address of a dentry.
pub mod Roundtrip
use cinquain_meta.Common.{ℕ, ◌+◌, ◌*◌, ◌/◌, ◌%◌, ◌^◌, List, [], ◌∷◌, ◌==◌, ltb, if◌then◌else◌}
use cinquain_meta.Containers.{Ptr, null}
use cinquain_meta.Memory.Actions.{M, pure, ◌>>=◌, dentry_at, fsnode_at}
use cinquain_meta.Dcache.{dget}

-- fid->raw
pub record Fid : Type 0 where
  pub raw0 : ℕ
  pub raw1 : ℕ
  pub raw2 : ℕ
  pub raw3 : ℕ

-- the returned type, 255 for a buffer that is too short, the words and the new length
pub data Encoded : Type 0 where
  too_short : Encoded
  encoded : Fid → ℕ → Encoded

unfoldable pub cinq_encode_fh : Ptr → ℕ → M Encoded
cinq_encode_fh dentry len = do
  d ← dentry_at dentry
  if ltb len 4 then pure too_short else do
    fs ← fsnode_at d.d_fsdata
    pure (
        encoded
          (record {
            raw0 = fs.fs_id % 2 ^ 32;
            raw1 = fs.fs_id / 2 ^ 32 % 2 ^ 32;
            raw2 = dentry % 2 ^ 32;
            raw3 = dentry / 2 ^ 32 % 2 ^ 32;
          })
          4)

-- (daddr << 32) | fid->raw[2], for words below 2 ^ 32
abbrev pub joined : ℕ → ℕ → ℕ
joined high low = high * 2 ^ 32 % 2 ^ 64 + low

unfoldable pub cinq_fh_to_dentry : Fid → ℕ → M Ptr
unfolding dget
cinq_fh_to_dentry fid fh_len = if ltb fh_len 4 then pure null else dget (joined fid.raw3 fid.raw2)
