-- ===== src/Journal/Queue.antt =====
-- A pass of the journal's thread takes the entries out of the lists.
use cinquain_meta.Common.{
  ℕ, zero, suc, ◌+◌, ◌≤◌, ◌<◌, ◌≡◌, refl, inl, inr, some, List, [], ◌∷◌, ◌++◌, ◌==◌, ltb,
  if◌then◌else◌, arith, length, Bool-cases, ◌∙◌, ==_refl,
}
use cinquain_meta.Containers.{Ptr, Library, remove}
use cinquain_meta.Journal.{num_way, Journal, journal_empty, journal_get, drain_way, drain_ways}

module _ ⦃u : Library⦄ where
  remove_first : (p : Ptr) (l : List Ptr) → remove p (p ∷ l) ≡ l
  remove_first p l = rw (==_refl p)

  journal_get-first :
      (j : Journal) (way : ℕ) (p : Ptr) (l : List Ptr)
      → way < num_way
      → j.list way ≡ p ∷ l
      → (j' : Journal) × (journal_get j way ≡ some (p, j'))
        × ((w : ℕ) → j'.list w ≡ (if w == way then l else j.list w))
  unfolding journal_get
  journal_get-first j way p l fits at = (
    record { list = λ w. if w == way then u.list_del p (p ∷ l) else j.list w },
    ground arith,
    λ w. rw (u.list_del_lem p (p ∷ l), remove_first p l),
  )

  -- The loop over one list frees its entries, oldest first, and leaves that list alone empty.
  drain_way-all :
      (fuel : ℕ) (j : Journal) (way : ℕ) (l : List Ptr)
      → way < num_way
      → j.list way ≡ l
      → length l < fuel
      → (j' : Journal) × (drain_way fuel j way ≡ some (l, j'))
        × ((w : ℕ) → j'.list w ≡ (if w == way then [] else j.list w))
  unfolding drain_way journal_empty
  drain_way-all zero j way l fits at enough = elim enough [ ]
  drain_way-all (suc fuel) j way [] fits at enough = (j, ground arith, λ w. ground arith)
  drain_way-all (suc fuel) j way (p ∷ l) fits at enough =
      let (j1, got, lists1) = journal_get-first j way p l fits at in
      let (j2, ran, lists2) =
        drain_way-all fuel j1 way l fits (lists1 way ∙ rw (==_refl way)) (omega arith) in
      (j2, ground (arith, got, ran), λ w. ground (arith, lists2 w, lists1 w))

-- the entries of `ways` lists from `way`
abbrev pub queued : Journal → ℕ → ℕ → List Ptr
queued j way zero = []
queued j way (suc ways) = j.list way ++ queued j (way + 1) ways

queued_same :
    (j k : Journal) (way ways : ℕ)
    → ((w : ℕ) → way ≤ w → j.list w ≡ k.list w)
    → queued j way ways ≡ queued k way ways
queued_same j k way zero same = refl
queued_same j k way (suc ways) same =
    rw (same way (omega arith), queued_same j k (way + 1) ways (λ w h. same w (omega arith)))

module _ ⦃u : Library⦄ where
  -- A pass over `ways` lists from `way`, all in the bounds of the array and each shorter than the
  -- fuel, frees every entry of these lists, list by list and each from its oldest entry, and
  -- leaves them empty and the other lists as they were.
  pub drain_ways-all :
      (fuel : ℕ) (j : Journal) (way ways : ℕ)
      → way + ways ≤ num_way
      → ((w : ℕ) → length (j.list w) < fuel)
      → (j' : Journal) × (drain_ways fuel j way ways ≡ some (queued j way ways, j'))
        × ((w : ℕ)
            → j'.list w
              ≡ (if ltb w way then j.list w else if ltb w (way + ways) then [] else j.list w))
  unfolding drain_ways
  drain_ways-all fuel j way zero fits enough = (j, refl, λ w. ground arith)
  drain_ways-all fuel j way (suc ways) fits enough =
      let (j1, ran1, lists1) =
        drain_way-all fuel j way (j.list way) (omega arith) refl (enough way) in
      let (j2, ran2, lists2) =
        drain_ways-all fuel j1 (way + 1) ways (omega arith) (λ w. rw (lists1 w) (short w)) in
      (
        j2,
        rw (ran1, ran2, queued_same j1 j (way + 1) ways (λ w h. ground (arith, lists1 w))),
        λ w. ground (arith, lists2 w, lists1 w),
      )
    where
      short : (w : ℕ) → length (if w == way then [] else j.list w) < fuel
      short w = elim (Bool-cases (w == way)) [
        | inl e ↦ rw e (ground (arith, enough w))
        | inr e ↦ rw e (enough w)
      ]
