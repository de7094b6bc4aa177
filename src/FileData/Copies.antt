-- ===== src/FileData/Copies.antt =====
-- The bytes that cinq_file_read copies from the entries of the cache.
use cinquain_meta.Common.{
  ℕ, ◌+◌, ◌-◌, ◌^◌, ◌<◌, ◌≤◌, ◌≡◌, refl, ap, ◌∙◌, inl, inr, Bool, true, false, List, [], ◌∷◌, ◌&&◌,
  ◌||◌, ltb, leb, if◌then◌else◌, arith, Bool-cases,
}
use cinquain_meta.FileData.{
  Buffer, DataEntry, bufcpy, buf_offset, data_offset, cpy_len, copy_entries,
}

-- The entry has bytes of the range of `len` bytes from `f_pos` on, and they are those of `content`.
abbrev pub Agrees : Buffer → ℕ → ℕ → DataEntry → Type 0
Agrees content f_pos len e =
    (e.offset < f_pos + len)
    × (f_pos < e.offset + e.len)
    × (e.offset + e.len < 2 ^ 63)
    × ((k : ℕ)
        → k < e.len
        → f_pos ≤ e.offset + k
        → e.offset + k < f_pos + len
        → e.bytes k ≡ content (e.offset + k))

abbrev pub AllAgree : Buffer → ℕ → ℕ → List DataEntry → Type 0
AllAgree content f_pos len [] = Unit
AllAgree content f_pos len (e ∷ l) = Agrees content f_pos len e × AllAgree content f_pos len l

abbrev pub has_byte : DataEntry → ℕ → Bool
has_byte e n = leb e.offset n && ltb n (e.offset + e.len)

abbrev pub covers : List DataEntry → ℕ → Bool
covers [] n = false
covers (e ∷ l) n = has_byte e n || covers l n

-- where an entry ends or begins outside the range, the part inside
abbrev pub overlap : ℕ → ℕ → DataEntry → ℕ
overlap f_pos len e =
    (if ltb (f_pos + len) (e.offset + e.len) then f_pos + len else e.offset + e.len)
    - (if ltb e.offset f_pos then f_pos else e.offset)

abbrev pub total : ℕ → ℕ → List DataEntry → ℕ
total f_pos len [] = 0
total f_pos len (e ∷ l) = overlap f_pos len e + total f_pos len l

module _ (content : Buffer) (f_pos len : ℕ) (small : f_pos + len < 2 ^ 63) where
  cpy_len-overlap :
      (e : DataEntry) → Agrees content f_pos len e → cpy_len f_pos len e ≡ overlap f_pos len e
  cpy_len-overlap e (begins, ends, fits, same) = ground arith

  -- which bytes a copy writes, and where they come from
  copied :
      (e : DataEntry)
      → Agrees content f_pos len e
      → (j : ℕ)
      → (leb (buf_offset f_pos e) j && ltb j (buf_offset f_pos e + overlap f_pos len e))
        ≡ (has_byte e (f_pos + j) && ltb j len)
  copied e (begins, ends, fits, same) j = ground arith

  source :
      (e : DataEntry)
      → (j : ℕ) → has_byte e (f_pos + j) ≡ true
      → j - buf_offset f_pos e + data_offset f_pos e ≡ f_pos + j - e.offset
  source e j inside = ground arith

  bufcpy-has_byte :
      (e : DataEntry) (buf : Buffer)
      → Agrees content f_pos len e
      → (j : ℕ)
      → bufcpy buf (buf_offset f_pos e) e.bytes (data_offset f_pos e) (overlap f_pos len e) j
        ≡ (if has_byte e (f_pos + j) && ltb j len then content (f_pos + j) else buf j)
  bufcpy-has_byte e buf (begins, ends, fits, same) j =
      elim (Bool-cases (has_byte e (f_pos + j) && ltb j len)) [
        | inl inside ↦
            let here : has_byte e (f_pos + j) ≡ true = ground arith in
            let at : e.offset + (f_pos + j - e.offset) ≡ f_pos + j = ground arith in
            rw (copied e (begins, ends, fits, same) j, inside)
              (ap e.bytes (source e j here)
                ∙ same (f_pos + j - e.offset) (ground arith) (ground arith) (ground arith)
                ∙ ap content at)
        | inr outside ↦ rw (copied e (begins, ends, fits, same) j, outside) refl
      ]

  -- The loop writes each byte of the range that an entry has, and no other.
  pub copy_entries-covers :
      (l : List DataEntry) (buf : Buffer) (ppos : ℕ)
      → AllAgree content f_pos len l
      → (j : ℕ)
      → (copy_entries f_pos len l buf ppos).0 j
        ≡ (if covers l (f_pos + j) && ltb j len then content (f_pos + j) else buf j)
  unfolding copy_entries
  copy_entries-covers [] buf ppos all j = refl
  copy_entries-covers (e ∷ l) buf ppos (agrees, more) j =
      let n = cpy_len f_pos len e in
      let buf' = bufcpy buf (buf_offset f_pos e) e.bytes (data_offset f_pos e) n in
      let one = bufcpy-has_byte e buf agrees j in
      let rest = copy_entries-covers l buf' (ppos + n) more j in
      ground (arith, one, rest, cpy_len-overlap e agrees)

  pub copy_entries-total :
      (l : List DataEntry) (buf : Buffer) (ppos : ℕ)
      → AllAgree content f_pos len l
      → (copy_entries f_pos len l buf ppos).1 ≡ ppos + total f_pos len l
  unfolding copy_entries
  copy_entries-total [] buf ppos all = omega arith
  copy_entries-total (e ∷ l) buf ppos (agrees, more) =
      let n = cpy_len f_pos len e in
      let buf' = bufcpy buf (buf_offset f_pos e) e.bytes (data_offset f_pos e) n in
      let rest = copy_entries-total l buf' (ppos + n) more in
      let one = cpy_len-overlap e agrees in rest ∙ omega (arith, one)
