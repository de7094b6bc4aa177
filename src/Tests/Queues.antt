-- ===== src/Tests/Queues.antt =====
-- The journal, the handles and the hash, at concrete inputs.
use cinquain_meta.Common.{
  ◌⊎◌, none, ℕ, ◌%◌, ◌*◌, ◌^◌, ◌<◌, ◌≡◌, ◌≢◌, refl, some, [], ◌∷◌, arith, ◌==◌, ltb, if◌then◌else◌,
  inc32, length,
}
use cinquain_meta.Containers.Laws.{plain_lists}
use cinquain_meta.Memory.Actions.{ret, update}
use cinquain_meta.Journal.{Journal, journal_add, drain_ways}
use cinquain_meta.Journal.Queue.{drain_ways-all}
use cinquain_meta.Journal.Bounds.{journal_add-half}
use cinquain_meta.Handle.{Fid, encoded, joined, cinq_encode_fh, cinq_fh_to_dentry}
use cinquain_meta.Handle.Roundtrip.{fh_to_dentry-encode_fh}
use cinquain_meta.Fingerprint.{
  hash_64, golden_ratio_64, cfp_set_value, cfp_set_value-distinct, hash_64-eq-mul,
}
use cinquain_meta.Tests.{memory, file_dentry, node_b, dir_inode, file_inode}

-- entries 7 and 8 in list 3, entry 9 in list 5
abbrev journal : Journal
journal = record { list = λ way. if way == 3 then 7 ∷ 8 ∷ [] else if way == 5 then 9 ∷ [] else [] }

journal_short : (w : ℕ) → length (journal.list w) < 4
journal_short w = ground arith

drain_ways-all_example :
    (j' : Journal) × (drain_ways 4 journal 2 4 ≡ some (7 ∷ 8 ∷ 9 ∷ [], j'))
    × ((w : ℕ)
        → j'.list w ≡ (if ltb w 2 then journal.list w else if ltb w 6 then [] else journal.list w))
drain_ways-all_example = drain_ways-all 4 journal 2 4 (omega arith) journal_short

encode_fh_example :
    (fid : Fid) × (cinq_encode_fh 51 4 memory ≡ ret (encoded fid 4) memory)
    × (fid.raw0 < 2 ^ 32)
    × (fid.raw1 < 2 ^ 32)
    × (fid.raw2 < 2 ^ 32)
    × (fid.raw3 < 2 ^ 32)
    × (joined fid.raw1 fid.raw0 ≡ 11)
    × (cinq_fh_to_dentry fid 4 memory
        ≡ ret 51 (record memory {
          dentries = update memory.dentries 51 (some (record file_dentry { d_count = inc32 1 }));
        }))
encode_fh_example =
    fh_to_dentry-encode_fh memory 51 file_dentry node_b refl refl 4 (omega arith) (omega arith)
      (omega arith) (omega arith)

hash_64-eq-mul_example : hash_64 31 64 ≡ 31 * golden_ratio_64 % 2 ^ 64
hash_64-eq-mul_example = hash_64-eq-mul 31 (omega arith)

cfp_set_value-distinct_example :
    (fp : ℕ) × (fq : ℕ) × (cfp_set_value 41 memory ≡ ret fp memory)
    × (cfp_set_value 43 memory ≡ ret fq memory)
    × (fp ≢ fq)
cfp_set_value-distinct_example =
    cfp_set_value-distinct memory 41 43 dir_inode file_inode refl refl (omega arith) (omega arith)
      (omega arith)

journal_add-half_example :
    ((journal_add journal 6 3 ≢ none) × (journal_add journal 6 131 ≡ none))
    ⊎ ((journal_add journal 6 3 ≡ none) × (journal_add journal 6 131 ≢ none))
journal_add-half_example = journal_add-half journal 6 3
