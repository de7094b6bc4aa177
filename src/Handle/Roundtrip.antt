-- ===== src/Handle/Roundtrip.antt =====
-- A handle leads back to the dentry that it was made from.
use cinquain_meta.Common.{ℕ, ◌/◌, ◌%◌, ◌^◌, ◌≤◌, ◌<◌, ◌≡◌, ◌≢◌, some, none, arith, inc32}
use cinquain_meta.Containers.{Ptr, null}
use cinquain_meta.Memory.{State, Dentry, Fsnode}
use cinquain_meta.Memory.Actions.{ret, fault, update}
use cinquain_meta.Handle.{Fid, encoded, cinq_encode_fh, cinq_fh_to_dentry, joined}

-- The words that cinq_encode_fh makes of an address of 64 bits join to the address.
joined_words : (p : ℕ) → p < 2 ^ 64 → joined (p / 2 ^ 32 % 2 ^ 32) (p % 2 ^ 32) ≡ p
joined_words p h = omega arith

module _ (s : State) (dentry : Ptr) (d : Dentry) (fs : Fsnode)
    (at_dentry : s.dentries dentry ≡ some d) (at_fs : s.fsnodes d.d_fsdata ≡ some fs) where
  -- For a live dentry at an address of 64 bits, and a buffer of four words or more, the handle of
  -- cinq_encode_fh has four words of 32 bits and carries the identifier of the file system node;
  -- cinq_fh_to_dentry takes it back to the dentry, with one more reference and nothing else
  -- changed.
  pub fh_to_dentry-encode_fh :
      (len : ℕ)
      → 4 ≤ len
      → dentry < 2 ^ 64
      → fs.fs_id < 2 ^ 64
      → dentry ≢ null
      → (fid : Fid) × (cinq_encode_fh dentry len s ≡ ret (encoded fid 4) s)
        × (fid.raw0 < 2 ^ 32)
        × (fid.raw1 < 2 ^ 32)
        × (fid.raw2 < 2 ^ 32)
        × (fid.raw3 < 2 ^ 32)
        × (joined fid.raw1 fid.raw0 ≡ fs.fs_id)
        × (cinq_fh_to_dentry fid 4 s
            ≡ ret dentry (record s {
              dentries = update s.dentries dentry (some (record d { d_count = inc32 d.d_count }));
            }))
  unfolding cinq_encode_fh cinq_fh_to_dentry
  fh_to_dentry-encode_fh len long small small_id ne = (
    record {
      raw0 = fs.fs_id % 2 ^ 32;
      raw1 = fs.fs_id / 2 ^ 32 % 2 ^ 32;
      raw2 = dentry % 2 ^ 32;
      raw3 = dentry / 2 ^ 32 % 2 ^ 32;
    },
    ground (arith, at_fs),
    omega arith,
    omega arith,
    omega arith,
    omega arith,
    omega arith,
    rw (joined_words dentry small) (ground arith),
  )

-- cinq_fh_to_dentry believes the handle: an address with no dentry, such as that of a dentry freed
-- since, is a fault, and no error is returned.
fh_to_dentry-stale :
    (s : State) (fid : Fid) (len : ℕ)
    → 4 ≤ len
    → joined fid.raw3 fid.raw2 ≢ null
    → s.dentries (joined fid.raw3 fid.raw2) ≡ none
    → cinq_fh_to_dentry fid len s ≡ fault
unfolding cinq_fh_to_dentry
fh_to_dentry-stale s fid len long ne gone = ground arith
