-- ===== src/Risk/Tests.antt =====
-- Tests of the estimate, and its theorem at a concrete input.
use big_x.Base.{ℕ, ◌≡◌, refl, some, [], ◌∷◌}
use big_x.Risk.Gas.{FeeHistory, sorted, insert_sorted, median}

abbrev quiet_chain : ℕ → FeeHistory
quiet_chain percentile = record {
  base_fee_per_gas = 30 ∷ 40 ∷ [];
  reward = (2000000000 ∷ []) ∷ [] ∷ (1000000000 ∷ []) ∷ [];
}

median_even : median (7 ∷ 1 ∷ 4 ∷ 2 ∷ []) ≡ some 3
unfolding median sorted insert_sorted
median_even = refl
