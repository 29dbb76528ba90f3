-- ===== src/Resilience/Retry.antt =====
-- The retry loop `with_retry` of contracts/resilience.py.
use big_x.Base.{
  ℕ, zero, suc, ◌-◌, ◌*◌, ◌^◌, Bool, true, false, Option, none, some, ltb, if◌then◌else◌,
}
use big_x.Base.Exec.{Result, ok, err, Exec}
use big_x.Resilience.Breaker.{CircuitBreaker, allow, record_success, record_failure}

-- What the loops use of the state that they run in: the clock, `asyncio.sleep`, and the breaker that
-- the caller passed, if any.
pub record Hooks (S : Type 0) : Type 0 where
  pub now : S → ℕ
  pub sleep : ℕ → S → S
  pub circuit : S → Option CircuitBreaker
  pub set_circuit : CircuitBreaker → S → S

-- `TransientDependencyError` with its two messages; `type_error` is a breaker that raises.
pub data RetryError (E : Type 0) : Type 0 where
  breaker_open type_error : RetryError E
  exhausted : ℕ → Option E → RetryError E

module _ {S : Type 0} (hooks : Hooks S) where
  abbrev pub on_success : S → S
  on_success s = elim (hooks.circuit s) [
    | none ↦ s
    | some b ↦ hooks.set_circuit (record_success b) s
  ]

  abbrev pub on_failure : S → S
  on_failure s = elim (hooks.circuit s) [
    | none ↦ s
    | some b ↦ hooks.set_circuit (record_failure (hooks.now s) b) s
  ]

  -- `circuit.allow()`, with its change of the breaker; without a breaker everything is allowed
  abbrev pub ask_circuit : S → Option Bool × S
  ask_circuit s = elim (hooks.circuit s) [
    | none ↦ (some true, s)
    | some b ↦ elim (allow (hooks.now s) b) [
      | none ↦ (none, s)
      | some (allowed, b') ↦ (some allowed, hooks.set_circuit b' s)
    ]
  ]

  abbrev pub backoff : ℕ → ℕ → ℕ
  backoff base attempt = base * 2 ^ (attempt - 1)

  -- `if attempt < max_retries`: the sleep after a failed attempt
  abbrev pub pause : ℕ → ℕ → ℕ → S → S
  pause max_retries base attempt s =
      if ltb attempt max_retries then hooks.sleep (backoff base attempt) s else s

  module _ {E A : Type 0} (fn : Exec E S A) (max_retries base : ℕ) where
    -- The `for` loop with `left` rounds to go, after an attempt that raised `last`.
    unfoldable pub retry_loop : ℕ → Option E → S → Result (RetryError E) A × S
    retry_loop zero last s = (err (exhausted max_retries last), s)
    retry_loop (suc left) last s = elim (fn s).0 [
      | ok a ↦ (ok a, on_success (fn s).1)
      | err e ↦
          retry_loop left (some e)
            (pause max_retries base (max_retries - left) (on_failure (fn s).1))
    ]

    abbrev pub gate : Option Bool × S → Result (RetryError E) A × S
    gate (none, s) = (err type_error, s)
    gate (some false, s) = (err breaker_open, s)
    gate (some true, s) = retry_loop max_retries none s

    unfoldable pub with_retry : S → Result (RetryError E) A × S
    with_retry s = gate (ask_circuit s)
