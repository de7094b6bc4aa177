-- ===== src/Journal/Bounds.antt =====
-- Which serial numbers journal_add_syn has a list for.
use cinquain_meta.Common.{
  ℕ, ◌+◌, ◌≡◌, ◌≢◌, ◌⊎◌, inl, inr, refl, true, false, none, arith, ltb, Bool-cases,
}
use cinquain_meta.Containers.{Ptr, Library}
use cinquain_meta.Journal.{Journal, num_way, way_of, journal_add}

module _ ⦃u : Library⦄ where
  -- Of two serial numbers that are NUM_WAY apart, journal_add_syn has a list for one and writes past
  -- the end of the array for the other, whatever the journal holds.
  pub journal_add-half :
      (j : Journal) (entry : Ptr) (sn : ℕ)
      → ((journal_add j entry sn ≢ none) × (journal_add j entry (sn + num_way) ≡ none))
        ⊎ ((journal_add j entry sn ≡ none) × (journal_add j entry (sn + num_way) ≢ none))
  unfolding journal_add
  journal_add-half j entry sn = elim (Bool-cases (ltb (way_of sn) num_way)) [
    | inl low ↦
        let high : ltb (way_of (sn + num_way)) num_way ≡ false = ground arith in
        inl (rw low (λ e. cc), rw high refl)
    | inr high ↦
        let low : ltb (way_of (sn + num_way)) num_way ≡ true = ground arith in
        inr (rw high refl, rw low (λ e. cc))
  ]
