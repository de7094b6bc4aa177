-- ===== src/Tests/Files.antt =====
-- Open files and their data, at the concrete memory.
use cinquain_meta.Common.{
  ◌≢◌, ◌⊎◌, not, true, false, ℕ, ◌+◌, ◌-◌, ◌%◌, ◌^◌, ◌≡◌, refl, Option, none, some, List, [], ◌∷◌,
  ◌==◌, ◌&&◌, if◌then◌else◌, arith, ltb, inc32,
}
use cinquain_meta.Containers.{Ptr}
use cinquain_meta.Containers.Laws.{plain_lists}
use cinquain_meta.Errno.{success, failure, ok, einval}
use cinquain_meta.Attr.{Iattr, is_link, cinq_setattr}
use cinquain_meta.Attr.Stat.{Kstat, simple_getattr, restat, cinq_setattr-simple_getattr}
use cinquain_meta.Attr.Fields.{resizes, has_size, changed, cinq_setattr-changed}
use cinquain_meta.File.{File, blank_file}
use cinquain_meta.Memory.{State}
use cinquain_meta.Memory.Actions.{ret}
use cinquain_meta.OpenFile.{get_write_access, dentry_open}
use cinquain_meta.OpenFile.Access.{start, got, Held, with_count, Requests-Held}
use cinquain_meta.OpenFile.Modes.{opened_file, allocated, dentry_open-file}
use cinquain_meta.OpenFile.Seek.{generic_file_llseek, generic_file_llseek-target}
use cinquain_meta.FileData.{Buffer, DataEntry, ReadResult, cinq_file_read, cinq_file_write}
use cinquain_meta.FileData.Copies.{covers, total}
use cinquain_meta.FileData.Roundtrip.{
  Recalls, cinq_file_read-content, cinq_file_read-cinq_file_write,
}
use cinquain_meta.Tests.{file_dentry, file_inode, file_tag, memory}

abbrev file : File
file = record blank_file { f_dentry = 51; f_pos = 4 }

abbrev one_writer : State
one_writer = with_count memory 43 file_inode 1

Requests-Held_example : Held file 43 one_writer 1 1 0
unfolding get_write_access inc32
Requests-Held_example =
    Requests-Held file 43 memory file_dentry file_inode refl refl refl refl 1 one_writer 1 0
      (omega arith) (got 0 memory one_writer 0 0 start refl)

-- two bytes back from the position 4
llseek-target_example :
    generic_file_llseek file (2 ^ 64 - 2) 1 memory ≡ ret (ok (2, record file { f_pos = 2 })) memory
llseek-target_example =
    generic_file_llseek-target memory file file_dentry file_inode (2 ^ 64 - 2) 1 refl refl refl
      (omega arith) (omega arith)

-- O_WRONLY
open-file_example :
    dentry_open 1 51 1 memory
    ≡ ret (ok (opened_file 51 1)) (with_count (allocated memory) 43 file_inode 1)
unfolding inc32
open-file_example =
    dentry_open-file memory 1 51 file_dentry file_inode 1 refl refl refl refl (omega arith)
      (omega arith)

-- a cache of one entry
abbrev Cached : Type 0
Cached = Option (ℕ × DataEntry)

cached : Option (ℕ × DataEntry) → List DataEntry
cached none = []
cached (some (key, de)) = de ∷ []

abbrev cache_read : ℕ → ℕ → ℕ → Cached → List DataEntry × Cached
cache_read fp pos len c = (cached c, c)

abbrev cache_write : ℕ → DataEntry → Cached → Cached
cache_write fp de c = some (fp, de)

recalled : Recalls cache_read cache_write
unfolding cached
recalled fp de c pos len some_bytes from to small = (
  ((omega arith, omega arith, small, λ k inside low high. ap_bytes de k), tt),
  λ a low high. ground arith,
)
  where
    ap_bytes : (e : DataEntry) (k : ℕ) → e.bytes k ≡ e.bytes (e.offset + k - e.offset)
    ap_bytes e k = ground arith

abbrev written : Buffer
written j = j + 65

-- four bytes are written at the position 4, and the last two read
read-write_example :
    (s' : State) × (c' : Cached) × (r : ReadResult Cached) × (cinq_file_write cache_read cache_write
        file written 4 4 none memory
      ≡ ret (4, 8, c') s')
    × (cinq_file_read cache_read cache_write (record file { f_pos = 6 }) (λ _. 0) 2 6 c' s'
        ≡ ret r s')
    × ((j : ℕ) → r.buf j ≡ (if ltb j 2 then 6 + j - 4 + 65 else 0))
read-write_example =
    cinq_file_read-cinq_file_write cache_read cache_write recalled memory file
      (record file { f_pos = 6 }) file_dentry file_dentry file_inode written (λ _. 0) 4 2 none refl
      refl refl refl (omega arith) (omega arith) (omega arith) (omega arith)

-- a file of eight bytes, of which the cache has the first five
abbrev sized : State
sized = record memory {
  inodes = λ p. if p == 43 then some (record file_inode { i_size = 8 }) else memory.inodes p;
}

abbrev kept_entry : DataEntry
kept_entry = record { bytes = written; offset = 0; len = 5 }

read-content_example :
    (r : ReadResult Cached) × (cinq_file_read cache_read cache_write file
        (λ _. 0)
        3
        4
        (some (0, kept_entry))
        sized
      ≡ ret r sized)
    × (r.count ≡ total 4 3 (kept_entry ∷ []) % 2 ^ 64)
    × ((j : ℕ)
        → r.buf j ≡ (if covers (kept_entry ∷ []) (4 + j) && ltb j 3 then written (4 + j) else 0))
unfolding cached
read-content_example =
    cinq_file_read-content cache_read cache_write sized file file_dentry
      (record file_inode { i_size = 8 }) (λ _. 0) 3 (some (0, kept_entry)) written refl refl
      (omega arith) (omega arith)
      ((omega arith, omega arith, omega arith, λ k inside low high. ground arith), tt)

-- a new size, with ATTR_SIZE and ATTR_MTIME
abbrev resize : Iattr
resize = record {
  ia_valid = 0x28;
  ia_mode = 0;
  ia_uid = 0;
  ia_gid = 0;
  ia_size = 7;
  ia_atime = 0;
  ia_mtime = 3;
  ia_ctime = 0;
}

setattr-changed_example :
    ((resizes resize file_inode && not (has_size file_inode file_tag) ≡ true)
      × (cinq_setattr 51 resize memory ≡ ret (failure einval) memory))
    ⊎ ((resizes resize file_inode && not (has_size file_inode file_tag) ≡ false)
        × (s' : State) × (cinq_setattr 51 resize memory ≡ ret success s')
        × (s'.inodes 43 ≡ some (changed resize 5 file_inode))
        × ((q : Ptr) → 43 ≢ q → s'.inodes q ≡ memory.inodes q)
        × (s' ≡ record memory { inodes = s'.inodes }))
setattr-changed_example =
    cinq_setattr-changed memory 51 resize file_dentry file_inode file_tag refl refl refl

setattr-getattr_example :
    (st : Kstat) × (s' : State) × (simple_getattr (λ sb. sb) 51 memory ≡ ret (ok st) memory)
    × (cinq_setattr 51 resize memory ≡ ret success s')
    × (simple_getattr (λ sb. sb) 51 s' ≡ ret (ok (restat resize 5 st)) s')
unfolding is_link
setattr-getattr_example =
    cinq_setattr-simple_getattr memory 51 resize file_dentry file_inode file_tag (λ sb. sb) refl
      refl refl refl refl
