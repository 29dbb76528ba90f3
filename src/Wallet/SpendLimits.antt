-- ===== src/Wallet/SpendLimits.antt =====
-- spend_limits.py. Amounts of money are counted in cents, without the rounding of floats.
use big_x.Base.{ℕ, ◌/◌, ◌≡◌, ◌≢◌, String, Bool, true, false, Option, none, some, if◌then◌else◌}
use big_x.Base.Int.{ℤ, pos, ◌+ℤ◌, ◌-ℤ◌, ltb_ℤ}
use Prim.Native.String.{◌++◌ as append}

-- An agent and a day, which `_daily_key` puts into one text.
abbrev pub Key : Type 0
Key = String × ℕ

abbrev pub value_or_zero : Option ℤ → ℤ
value_or_zero none = pos 0
value_or_zero (some v) = v

-- What the service uses of Redis, and what Redis documents of it: an increment adds to its key and
-- leaves the others, and setting a time to live changes no value at once.
pub record Redis : Type 1 where
  pub Store : Type 0
  pub get : Key → Store → Option ℤ
  pub incrbyfloat : Key → ℤ → Store → Store
  pub expire : Key → ℕ → Store → Store
  pub get_incrbyfloat :
      (k : Key) (v : ℤ) (s : Store)
      → get k (incrbyfloat k v s) ≡ some (value_or_zero (get k s) +ℤ v)
  pub get_incrbyfloat_other :
      (j k : Key) (v : ℤ) (s : Store) → j ≢ k → get k (incrbyfloat j v s) ≡ get k s
  pub get_expire : (j k : Key) (seconds : ℕ) (s : Store) → get k (expire j seconds s) ≡ get k s

pub record SpendLimitConfig : Type 0 where
  pub per_tx_limit_usd : ℤ
  pub daily_limit_usd : ℤ

pub record SpendCheckResult : Type 0 where
  pub allowed : Bool
  pub reason : Option String
  pub remaining_daily_usd : Option ℤ

abbrev refused : String → Option ℤ → SpendCheckResult
refused e remaining = record { allowed = false; reason = some e; remaining_daily_usd = remaining }

-- `_daily_key`
abbrev pub daily_key : String → ℕ → Key
daily_key agent_id now = (agent_id, now / 86400)

module _ (redis : Redis) where
  -- `_get_spent_today`
  unfoldable pub get_spent_today : String → ℕ → redis.Store → ℤ
  get_spent_today agent_id now s = value_or_zero (redis.get (daily_key agent_id now) s)

  -- `money` writes an amount as in `{amount:,.2f}`.
  abbrev within_day : (ℤ → String) → ℤ → ℤ → SpendCheckResult
  within_day money amount remaining =
      if ltb_ℤ remaining amount
      then refused
          (append "$" (
            append (money amount)
              (append " would exceed daily limit — $" (append (money remaining) " remaining"))))
          (some remaining)
      else record {
        allowed = true;
        reason = none;
        remaining_daily_usd = some (remaining -ℤ amount);
      }

  abbrev check_with : (ℤ → String) → SpendLimitConfig → ℤ → ℤ → SpendCheckResult
  check_with money config amount spent_today =
      if ltb_ℤ config.per_tx_limit_usd amount
      then refused
          (append "$" (
            append (money amount)
              (append " exceeds per-transaction limit of $" (money config.per_tx_limit_usd))))
          none
      else within_day money amount (config.daily_limit_usd -ℤ spent_today)

  -- `check`, with what the store of configurations has for the agent.
  unfoldable pub check :
      (ℤ → String) → Option SpendLimitConfig → String → ℕ → ℤ → redis.Store → SpendCheckResult
  check money none agent_id now amount s = refused "No spend limit configured for this agent" none
  check money (some config) agent_id now amount s =
      check_with money config amount (get_spent_today agent_id now s)

  unfoldable pub record_spend : String → ℕ → ℤ → redis.Store → redis.Store
  record_spend agent_id now amount s =
      let key = daily_key agent_id now in redis.expire key 86400 (redis.incrbyfloat key amount s)
