-- ===== src/Risk/Gas.antt =====
-- `GasOptimizer` of gas_optimizer.py, without its price in dollars. The node's fee history is an
-- argument.
use big_x.Base.{
  ℕ, ◌+◌, ◌-◌, ◌*◌, ◌/◌, ◌%◌, String, Option, none, some, List, [], ◌∷◌, length, get_elem?, leb,
  ◌==◌, if◌then◌else◌,
}
use package.text.Mathlib.Text.{◌==◌ as same_text}

pub record FeeHistory : Type 0 where
  pub base_fee_per_gas : List ℕ
  pub reward : List (List ℕ)

pub record GasEstimate : Type 0 where
  pub max_fee_per_gas : ℕ
  pub max_priority_fee_per_gas : ℕ
  pub estimated_cost_wei : ℕ

-- `_percentile_for`
abbrev pub percentile_for : String → ℕ
percentile_for urgency =
    if same_text urgency "slow"
    then 10
    else if same_text urgency "standard"
    then 50
    else if same_text urgency "fast"
    then 90
    else 50

-- Python's `sorted`
unfoldable pub insert_sorted : ℕ → List ℕ → List ℕ
insert_sorted x [] = x ∷ []
insert_sorted x (y ∷ ys) = let rest = insert_sorted x ys in if leb x y then x ∷ y ∷ ys else y ∷ rest

unfoldable pub sorted : List ℕ → List ℕ
sorted [] = []
sorted (x ∷ xs) = insert_sorted x (sorted xs)

abbrev halved : Option ℕ → Option ℕ → Option ℕ
halved (some a) (some b) = some ((a + b) / 2)
halved _ _ = none

abbrev pub middle : List ℕ → Option ℕ
middle values =
    if length values % 2 == 0
    then halved (get_elem? values (length values / 2 - 1)) (get_elem? values (length values / 2))
    else get_elem? values (length values / 2)

-- `_median`, of values that are not empty
unfoldable pub median : List ℕ → Option ℕ
median values = middle (sorted values)

-- `base_fees[-1]`
abbrev pub last : List ℕ → Option ℕ
last [] = none
last (x ∷ []) = some x
last (x ∷ y ∷ ys) = last (y ∷ ys)

-- `[r[0] for r in reward if r]`
abbrev pub first_rewards : List (List ℕ) → List ℕ
first_rewards [] = []
first_rewards ([] ∷ rs) = first_rewards rs
first_rewards ((x ∷ xs) ∷ rs) = x ∷ first_rewards rs

abbrev pub one_and_a_half_gwei : ℕ
one_and_a_half_gwei = 1500000000

abbrev pub priority_fee : List ℕ → Option ℕ
priority_fee [] = some one_and_a_half_gwei
priority_fee (x ∷ xs) = median (x ∷ xs)

abbrev with_fees : ℕ → Option ℕ → Option ℕ → Option GasEstimate
with_fees gas_limit (some base) (some priority) = some (record {
  max_fee_per_gas = base * 2 + priority;
  max_priority_fee_per_gas = priority;
  estimated_cost_wei = (base * 2 + priority) * gas_limit;
})
with_fees gas_limit _ _ = none

-- `estimate`; without base fees it raises, which is `none`
unfoldable pub estimate : (ℕ → FeeHistory) → ℕ → String → Option GasEstimate
estimate fee_history gas_limit urgency =
    let history = fee_history (percentile_for urgency) in
    with_fees gas_limit (last history.base_fee_per_gas)
      (priority_fee (first_rewards history.reward))
