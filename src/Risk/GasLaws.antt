-- ===== src/Risk/GasLaws.antt =====
-- Proofs about the estimate of gas prices.
use big_x.Base.{
  ℕ, zero, suc, ◌+◌, ◌-◌, ◌*◌, ◌/◌, ◌%◌, ◌≤◌, ◌<◌, ◌≡◌, refl, arith, String, some, List, [], ◌∷◌,
  length, get_elem?, leb, ◌==◌, All, Bool-cases, inl, inr,
}
use big_x.Risk.Gas.{
  FeeHistory, GasEstimate, insert_sorted, sorted, middle, median, first_rewards, priority_fee,
  one_and_a_half_gwei, percentile_for, last, estimate,
}

abbrev pub Within : ℕ → ℕ → ℕ → Type 0
Within lo hi x = (lo ≤ x) × (x ≤ hi)

module _ (lo hi : ℕ) where
  insert_sorted-All :
      (x : ℕ) (xs : List ℕ)
      → Within lo hi x
      → All (Within lo hi) xs
      → All (Within lo hi) (insert_sorted x xs)
  unfolding insert_sorted
  insert_sorted-All x [] h k = (h, tt)
  insert_sorted-All x (y ∷ ys) h k = elim (Bool-cases (leb x y)) [
    | inl le ↦ rw (le, insert_sorted) (h, k)
    | inr gt ↦ rw (gt, insert_sorted) (k.0, insert_sorted-All x ys h k.1)
  ]

  sorted-All : (xs : List ℕ) → All (Within lo hi) xs → All (Within lo hi) (sorted xs)
  unfolding sorted
  sorted-All [] h = tt
  sorted-All (x ∷ xs) h = insert_sorted-All x (sorted xs) h.0 (sorted-All xs h.1)

length-insert_sorted : (x : ℕ) (xs : List ℕ) → length (insert_sorted x xs) ≡ suc (length xs)
unfolding insert_sorted
length-insert_sorted x [] = refl
length-insert_sorted x (y ∷ ys) = ground (arith, length-insert_sorted x ys)

length-sorted : (xs : List ℕ) → length (sorted xs) ≡ length xs
unfolding sorted
length-sorted [] = refl
length-sorted (x ∷ xs) = omega (arith, length-insert_sorted x (sorted xs), length-sorted xs)

-- An element that is in range and within the bounds.
get_elem?-All :
    {P : ℕ → Type 0} (xs : List ℕ) (i : ℕ)
    → All P xs
    → i < length xs
    → (x : ℕ) × (get_elem? xs i ≡ some x) × P x
get_elem?-All [] i h lt = absurd (omega arith)
get_elem?-All (x ∷ xs) zero h lt = (x, refl, h.0)
get_elem?-All (x ∷ xs) (suc i) h lt = get_elem?-All xs i h.1 (omega arith)

middle-Within :
    (lo hi : ℕ) (xs : List ℕ)
    → All (Within lo hi) xs
    → 1 ≤ length xs
    → (m : ℕ) × (middle xs ≡ some m) × Within lo hi m
middle-Within lo hi xs h n = elim (Bool-cases (length xs % 2 == 0)) [
  | inl even ↦
      let (a, at_a, within_a) = get_elem?-All xs (length xs / 2 - 1) h (ground arith) in
      let (b, at_b, within_b) = get_elem?-All xs (length xs / 2) h (ground arith) in
      ((a + b) / 2, rw (even, at_a, at_b) refl, (ground arith, ground arith))
  | inr odd ↦
      let (m, at_m, within) = get_elem?-All xs (length xs / 2) h (ground arith) in
      (m, rw (odd, at_m) refl, within)
]

-- The median of values that are not empty exists, and lies within any bounds of the values.
pub median-Within :
    (lo hi : ℕ) (values : List ℕ)
    → All (Within lo hi) values
    → 1 ≤ length values
    → (m : ℕ) × (median values ≡ some m) × Within lo hi m
unfolding median
median-Within lo hi values h n =
    middle-Within lo hi (sorted values) (sorted-All lo hi values h)
      (let e : 1 ≤ length (sorted values) = omega (arith, length-sorted values) in e)

priority_fee-Within :
    (lo hi : ℕ) (values : List ℕ)
    → All (Within lo hi) values
    → Within lo hi one_and_a_half_gwei
    → (m : ℕ) × (priority_fee values ≡ some m) × Within lo hi m
priority_fee-Within lo hi [] h d = (one_and_a_half_gwei, refl, d)
priority_fee-Within lo hi (x ∷ xs) h d = median-Within lo hi (x ∷ xs) h (omega arith)

-- If the node gives a base fee for the next block, then the estimate is made: its priority fee lies
-- within any bounds that the blocks' rewards and the default of 1.5 gwei lie in, its price of gas
-- leaves room for twice the base fee, and its cost is that price for each unit of gas.
pub estimate-Within :
    (fee_history : ℕ → FeeHistory) (gas_limit : ℕ) (urgency : String) (lo hi base : ℕ)
    → let history = fee_history (percentile_for urgency) in
      last history.base_fee_per_gas ≡ some base
      → All (Within lo hi) (first_rewards history.reward)
      → Within lo hi one_and_a_half_gwei
      → (r : GasEstimate) × (estimate fee_history gas_limit urgency ≡ some r)
        × Within lo hi r.max_priority_fee_per_gas
        × (r.max_fee_per_gas ≡ base * 2 + r.max_priority_fee_per_gas)
        × (r.estimated_cost_wei ≡ r.max_fee_per_gas * gas_limit)
unfolding estimate
estimate-Within fee_history gas_limit urgency lo hi base given h d =
    let (m, found, within) =
      priority_fee-Within lo hi (first_rewards (fee_history (percentile_for urgency)).reward) h d in
    (
      record {
        max_fee_per_gas = base * 2 + m;
        max_priority_fee_per_gas = m;
        estimated_cost_wei = (base * 2 + m) * gas_limit;
      },
      rw (given, found) refl,
      within,
      refl,
      refl,
    )
