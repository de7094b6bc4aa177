-- ===== src/FileData.antt =====
-- file.c: cinq_file_read and cinq_file_write. The cache of cinq_cache.h, which they call, is a
-- parameter: its state is `C`, and a call takes the key, cfp_set_value's. A buffer is a function from
-- its indices to bytes. Offsets are below 2 ^ 63; lengths are of 64 bits and wrap.
pub mod Copies
pub mod Roundtrip
use cinquain_meta.Common.{
  ℕ, ◌+◌, ◌-◌, ◌%◌, ◌^◌, Bool, List, [], ◌∷◌, ◌==◌, ◌&&◌, ltb, leb, if◌then◌else◌,
}
use cinquain_meta.Containers.{Ptr}
use cinquain_meta.File.{File}
use cinquain_meta.Memory.Actions.{M, pure, skip, ◌>>=◌, ◌>>◌, inode_at, set_inode, dentry_at}
use cinquain_meta.Fingerprint.{cfp_set_value}

-- size_t and ssize_t
abbrev pub sub_size : ℕ → ℕ → ℕ
sub_size a b = (a + 2 ^ 64 - b) % 2 ^ 64

abbrev pub Buffer : Type 0
Buffer = ℕ → ℕ

-- struct data_entry
pub record DataEntry : Type 0 where
  pub bytes : Buffer
  pub offset : ℕ
  pub len : ℕ

-- bufcpy(buf + at, src + from, n)
abbrev pub bufcpy : Buffer → ℕ → Buffer → ℕ → ℕ → Buffer
bufcpy buf at src from n j = if leb at j && ltb j (at + n) then src (j - at + from) else buf j

abbrev pub buf_offset : ℕ → DataEntry → ℕ
buf_offset f_pos cur = if ltb cur.offset f_pos then 0 else cur.offset - f_pos

abbrev pub data_offset : ℕ → DataEntry → ℕ
data_offset f_pos cur = if ltb cur.offset f_pos then f_pos - cur.offset else 0

abbrev pub cpy_len : ℕ → ℕ → DataEntry → ℕ
cpy_len f_pos len cur =
    if ltb (f_pos + len) (cur.offset + cur.len)
    then sub_size (sub_size (f_pos + len) cur.offset) (data_offset f_pos cur)
    else sub_size cur.len (data_offset f_pos cur)

-- the loop over the entries: the buffer and *ppos
unfoldable pub copy_entries : ℕ → ℕ → List DataEntry → Buffer → ℕ → Buffer × ℕ
copy_entries f_pos len [] buf ppos = (buf, ppos)
copy_entries f_pos len (cur ∷ l) buf ppos =
    let n = cpy_len f_pos len cur in
    copy_entries f_pos len l (bufcpy buf (buf_offset f_pos cur) cur.bytes (data_offset f_pos cur) n)
      (ppos + n)

-- what is returned, *ppos, the buffer and the cache
pub record ReadResult (C : Type 0) : Type 0 where
  pub count : ℕ
  pub ppos : ℕ
  pub buf : Buffer
  pub cache : C

module _ {C : Type 0} (wcache_read : ℕ → ℕ → ℕ → C → List DataEntry × C)
    (wcache_write : ℕ → DataEntry → C → C) where
  unfoldable pub cinq_file_read : File → Buffer → ℕ → ℕ → C → M (ReadResult C)
  unfolding cfp_set_value copy_entries
  cinq_file_read filp buf len ppos c = do
    d ← dentry_at filp.f_dentry
    i ← inode_at d.d_inode
    if leb i.i_size ppos then pure (record { count = 0; ppos = ppos; buf = buf; cache = c }) else do
      fp ← cfp_set_value d.d_inode
      let (entries, c') = wcache_read fp filp.f_pos len c
      let (buf', ppos') = copy_entries filp.f_pos len entries buf ppos
      pure (record { count = sub_size ppos' filp.f_pos; ppos = ppos'; buf = buf'; cache = c' })

  -- the number of bytes, *ppos and the cache
  unfoldable pub cinq_file_write : File → Buffer → ℕ → ℕ → C → M (ℕ × ℕ × C)
  unfolding cfp_set_value
  cinq_file_write filp buf len ppos c = do
    d ← dentry_at filp.f_dentry
    fp ← cfp_set_value d.d_inode
    i ← inode_at d.d_inode
    let c' = wcache_write fp (record { bytes = buf; offset = filp.f_pos; len = len }) c
    (if ltb i.i_size (ppos + len)
        then set_inode d.d_inode (λ v. record v { i_size = ppos + len })
        else skip)
    pure (len, ppos + len, c')
