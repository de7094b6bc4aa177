-- ===== src/FileData/Roundtrip.antt =====
-- What cinq_file_read gives, and that it gives what cinq_file_write took.
use cinquain_meta.Common.{
  ℕ, ◌+◌, ◌-◌, ◌%◌, ◌^◌, ◌<◌, ◌≤◌, ◌≡◌, refl, ap, ◌∙◌, inl, inr, true, false, some, List, ◌&&◌, ltb,
  leb, if◌then◌else◌, arith, Bool-cases,
}
use cinquain_meta.Containers.{Ptr}
use cinquain_meta.File.{File}
use cinquain_meta.Memory.{State, Inode, Dentry}
use cinquain_meta.Memory.Actions.{ret, update}
use cinquain_meta.Fingerprint.{cfp_set_value, hash_64}
use cinquain_meta.FileData.{
  Buffer, DataEntry, sub_size, copy_entries, ReadResult, cinq_file_read, cinq_file_write,
}
use cinquain_meta.FileData.Copies.{AllAgree, covers, total, copy_entries-covers, copy_entries-total}

module _ {C : Type 0} (wcache_read : ℕ → ℕ → ℕ → C → List DataEntry × C)
    (wcache_write : ℕ → DataEntry → C → C) where
  pub cinq_file_read-content :
      (s : State) (filp : File) (d : Dentry) (i : Inode) (out : Buffer) (len : ℕ) (c : C)
      (content : Buffer)
      → s.dentries filp.f_dentry ≡ some d
      → s.inodes d.d_inode ≡ some i
      → filp.f_pos < i.i_size
      → filp.f_pos + len < 2 ^ 63
      → let entries = (wcache_read (hash_64 i.i_ino 64) filp.f_pos len c).0 in
        AllAgree content filp.f_pos len entries
        → (r : ReadResult C) × (cinq_file_read wcache_read wcache_write filp out len filp.f_pos c s
            ≡ ret r s)
          × (r.count ≡ total filp.f_pos len entries % 2 ^ 64)
          × ((j : ℕ)
              → r.buf j ≡ (
                  if covers entries (filp.f_pos + j) && ltb j len
                  then content (filp.f_pos + j)
                  else out j))
  unfolding cinq_file_read cfp_set_value
  cinq_file_read-content s filp d i out len c content at_d at_i inside small all =
      let run = wcache_read (hash_64 i.i_ino 64) filp.f_pos len c in
      let done = copy_entries filp.f_pos len run.0 out filp.f_pos in
      let before_end : leb i.i_size filp.f_pos ≡ false = ground arith in
      let counted = copy_entries-total content filp.f_pos len small run.0 out filp.f_pos all in
      (
        record { count = sub_size done.1 filp.f_pos; ppos = done.1; buf = done.0; cache = run.1 },
        rw (at_d, at_i, before_end, at_i) refl,
        omega (arith, counted),
        copy_entries-covers content filp.f_pos len small run.0 out filp.f_pos all,
      )

  -- What the cache promises: a read inside an entry that was just written gives entries that agree
  -- with it and cover the range.
  abbrev pub Recalls : Type 0
  Recalls =
      (fp : ℕ) (de : DataEntry) (c : C) (pos len : ℕ)
      → 0 < len
      → de.offset ≤ pos
      → pos + len ≤ de.offset + de.len
      → de.offset + de.len < 2 ^ 63
      → let entries = (wcache_read fp pos len (wcache_write fp de c)).0 in
        AllAgree (λ a. de.bytes (a - de.offset)) pos len entries
        × ((a : ℕ) → pos ≤ a → a < pos + len → covers entries a ≡ true)

  -- the file behind a write at its position
  write-run :
      (s : State) (filp : File) (d : Dentry) (i : Inode) (buf : Buffer) (n : ℕ) (c : C)
      → s.dentries filp.f_dentry ≡ some d
      → s.inodes d.d_inode ≡ some i
      → (s' : State) × (j : Inode) × (cinq_file_write wcache_read wcache_write filp buf n filp.f_pos
            c s
          ≡ ret
              (
                n,
                filp.f_pos + n,
                wcache_write
                    (hash_64 j.i_ino 64)
                    (record { bytes = buf; offset = filp.f_pos; len = n })
                    c,
              )
              s')
        × ((p : Ptr) → s'.dentries p ≡ s.dentries p)
        × (s'.inodes d.d_inode ≡ some j)
        × (filp.f_pos + n ≤ j.i_size)
        × (i.i_size ≤ j.i_size)
  unfolding cinq_file_write cfp_set_value
  write-run s filp d i buf n c at_d at_i = elim (Bool-cases (ltb i.i_size (filp.f_pos + n))) [
    | inl grows ↦ (
      record s { inodes = update s.inodes d.d_inode (some (record i { i_size = filp.f_pos + n })) },
      record i { i_size = filp.f_pos + n },
      rw (at_d, at_i, at_i, grows, at_i) refl,
      λ p. refl,
      ground arith,
      omega arith,
      ground arith,
    )
    | inr stays ↦
        (s, i, rw (at_d, at_i, at_i, stays) refl, λ p. refl, at_i, ground arith, omega arith)
  ]

  -- cinq_file_write at the writer's position, then cinq_file_read of bytes inside those written, through
  -- any dentry of the same inode, where the cache recalls what it was given: the buffer has the bytes
  -- that were written, and no other byte of it changes.
  pub cinq_file_read-cinq_file_write :
      Recalls
      → (s : State) (writer reader : File) (d d' : Dentry) (i : Inode) (buf out : Buffer)
        (n len : ℕ) (c : C)
      → s.dentries writer.f_dentry ≡ some d
      → s.dentries reader.f_dentry ≡ some d'
      → d'.d_inode ≡ d.d_inode
      → s.inodes d.d_inode ≡ some i
      → writer.f_pos + n < 2 ^ 63
      → 0 < len
      → writer.f_pos ≤ reader.f_pos
      → reader.f_pos + len ≤ writer.f_pos + n
      → (s' : State) × (c' : C) × (r : ReadResult C) × (cinq_file_write wcache_read wcache_write
            writer buf n writer.f_pos c s
          ≡ ret (n, writer.f_pos + n, c') s')
        × (cinq_file_read wcache_read wcache_write reader out len reader.f_pos c' s' ≡ ret r s')
        × ((j : ℕ) → r.buf j ≡ (if ltb j len then buf (reader.f_pos + j - writer.f_pos) else out j))
  cinq_file_read-cinq_file_write recalls s writer reader d d' i buf out n len c at_d at_d' same at_i
        small some_bytes from to =
      let (s', i', wrote, dentries, at_i', size, _) = write-run s writer d i buf n c at_d at_i in
      let de : DataEntry = record { bytes = buf; offset = writer.f_pos; len = n } in
      let c' = wcache_write (hash_64 i'.i_ino 64) de c in
      let (agree, cover) =
        recalls (hash_64 i'.i_ino 64) de c reader.f_pos len some_bytes from to small in
      let (r, ran, _, bytes) =
        cinq_file_read-content s' reader d' i' out len c' (λ a. buf (a - writer.f_pos))
          (dentries reader.f_dentry ∙ at_d') (ap s'.inodes same ∙ at_i') (omega arith) (omega arith)
          agree in
      (
        s',
        c',
        r,
        wrote,
        ran,
        λ j. bytes j ∙ elim (Bool-cases (ltb j len)) [
          | inl inside ↦
              let covered = cover (reader.f_pos + j) (omega arith) (ground arith) in
              rw (covered, inside) refl
          | inr outside ↦ rw outside (ground arith)
        ],
      )
