-- ===== src/Resilience/Breaker.antt =====
-- `CircuitBreaker` of contracts/resilience.py, which mpc_wallet.py repeats. A time is a
-- reading of the monotonic clock, in its smallest unit.
use big_x.Base.{ℕ, ◌+◌, ◌-◌, Bool, true, false, ◌||◌, Option, none, some, leb, if◌then◌else◌}

pub data CircuitState : Type 0 where
  closed opened half_open : CircuitState

pub record CircuitBreaker : Type 0 where
  pub failure_threshold : ℕ
  pub recovery_timeout : ℕ
  pub failures : ℕ
  pub state : CircuitState
  pub opened_at : Option ℕ

-- `__init__`
abbrev pub new_breaker : ℕ → ℕ → CircuitBreaker
new_breaker threshold timeout = record {
  failure_threshold = threshold;
  recovery_timeout = timeout;
  failures = 0;
  state = closed;
  opened_at = none;
}

-- `now - self._opened_at >= self.recovery_timeout_seconds`, in an open breaker; without an opening
-- time the subtraction raises, which is `none`.
abbrev after_timeout : ℕ → Option ℕ → CircuitBreaker → Option (Bool × CircuitBreaker)
after_timeout now none b = none
after_timeout now (some at) b =
    if leb b.recovery_timeout (now - at)
    then some (true, record b { state = half_open })
    else some (false, b)

abbrev allow_in : CircuitState → ℕ → CircuitBreaker → Option (Bool × CircuitBreaker)
allow_in closed now b = some (true, b)
allow_in opened now b = after_timeout now b.opened_at b
allow_in half_open now b = some (true, b)

unfoldable pub allow : ℕ → CircuitBreaker → Option (Bool × CircuitBreaker)
allow now b = allow_in b.state now b

unfoldable pub record_success : CircuitBreaker → CircuitBreaker
record_success b = record b { failures = 0; state = closed }

abbrev is_half_open : CircuitState → Bool
is_half_open half_open = true
is_half_open _ = false

unfoldable pub record_failure : ℕ → CircuitBreaker → CircuitBreaker
record_failure now b =
    if is_half_open b.state || leb b.failure_threshold (b.failures + 1)
    then record b { failures = b.failures + 1; state = opened; opened_at = some now }
    else record b { failures = b.failures + 1 }
