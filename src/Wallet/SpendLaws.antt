-- ===== src/Wallet/SpendLaws.antt =====
-- Proofs about the spend limits.
use big_x.Base.{ℕ, ◌≡◌, ◌≢◌, ap, ◌∙◌, arith, String, true, false, none, some}
use big_x.Base.Int.{ℤ, ◌+ℤ◌, ◌-ℤ◌, ◌≤ℤ◌, ltb_ℤ, +ℤ_parts, -ℤ_parts, eq_of_parts}
use big_x.Wallet.SpendLimits.{
  Redis, SpendLimitConfig, value_or_zero, daily_key, get_spent_today, check, record_spend,
}

within_limits :
    (d p a spent : ℤ)
    → ltb_ℤ p a ≡ false
    → ltb_ℤ (d -ℤ spent) a ≡ false
    → (spent +ℤ a ≤ℤ d) × (a ≤ℤ p)
within_limits d p a spent h k = ground (arith, +ℤ_parts spent a, -ℤ_parts d spent)

sub_add : (d spent a : ℤ) → d -ℤ (spent +ℤ a) ≡ (d -ℤ spent) -ℤ a
sub_add d spent a = eq_of_parts _ _ (
    omega
      (arith, +ℤ_parts spent a, -ℤ_parts d (spent +ℤ a), -ℤ_parts d spent, -ℤ_parts (d -ℤ spent) a))

module _ (redis : Redis) where
  get_spent_today-record_spend :
      (agent_id : String) (now : ℕ) (amount : ℤ) (s : redis.Store)
      → get_spent_today redis agent_id now (record_spend redis agent_id now amount s)
        ≡ get_spent_today redis agent_id now s +ℤ amount
  unfolding get_spent_today record_spend
  get_spent_today-record_spend agent_id now amount s = ap value_or_zero (
      redis.get_expire (daily_key agent_id now) (daily_key agent_id now) 86400 _
      ∙ redis.get_incrbyfloat (daily_key agent_id now) amount s)

  get_spent_today-other :
      (agent_id other : String) (now later : ℕ) (amount : ℤ) (s : redis.Store)
      → daily_key agent_id now ≢ daily_key other later
      → get_spent_today redis other later (record_spend redis agent_id now amount s)
        ≡ get_spent_today redis other later s
  unfolding get_spent_today record_spend
  get_spent_today-other agent_id other now later amount s different = ap value_or_zero (
      redis.get_expire (daily_key agent_id now) (daily_key other later) 86400 _
      ∙ redis.get_incrbyfloat_other (daily_key agent_id now) (daily_key other later) amount s
          different)

  -- What a check that allows an amount has compared.
  check-allowed :
      (money : ℤ → String) (config : SpendLimitConfig) (agent_id : String) (now : ℕ)
      (amount left : ℤ) (s : redis.Store)
      → check redis money (some config) agent_id now amount s
        ≡ record { allowed = true; reason = none; remaining_daily_usd = some left }
      → let remaining = config.daily_limit_usd -ℤ get_spent_today redis agent_id now s in
        (ltb_ℤ config.per_tx_limit_usd amount ≡ false)
        × (ltb_ℤ remaining amount ≡ false)
        × (remaining -ℤ amount ≡ left)
  unfolding check
  check-allowed money config agent_id now amount left s e = ground arith

  -- If a check allows an amount and the amount is then recorded on the same day, the agent has spent
  -- no more than its daily limit, the amount is within the limit of one transaction, and what is left
  -- of the day is what the check said. What other agents or days have spent is unchanged.
  pub record_spend_within :
      (money : ℤ → String) (config : SpendLimitConfig) (agent_id other : String) (now later : ℕ)
      (amount left : ℤ) (s : redis.Store)
      → daily_key agent_id now ≢ daily_key other later
      → check redis money (some config) agent_id now amount s
        ≡ record { allowed = true; reason = none; remaining_daily_usd = some left }
      → let s' = record_spend redis agent_id now amount s in
        (get_spent_today redis agent_id now s' ≤ℤ config.daily_limit_usd)
        × (amount ≤ℤ config.per_tx_limit_usd)
        × (config.daily_limit_usd -ℤ get_spent_today redis agent_id now s' ≡ left)
        × (get_spent_today redis other later s' ≡ get_spent_today redis other later s)
  record_spend_within money config agent_id other now later amount left s different e =
      let (fits, remains, same) = check-allowed money config agent_id now amount left s e in
      let spent = get_spent_today redis agent_id now s in
      let within =
        within_limits config.daily_limit_usd config.per_tx_limit_usd amount spent fits remains in
      rw (get_spent_today-record_spend agent_id now amount s) (
        within.0,
        within.1,
        sub_add config.daily_limit_usd spent amount ∙ same,
        get_spent_today-other agent_id other now later amount s different,
      )
