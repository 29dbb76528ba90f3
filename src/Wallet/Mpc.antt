-- ===== src/Wallet/Mpc.antt =====
-- `_with_resilience` of services/wallet_service/src/mpc_wallet.py, around the calls of the MPC wallet.
-- The breaker is that of Resilience.Breaker, whose methods mpc_wallet.py repeats.
use big_x.Base.{
  ℕ, zero, suc, ◌-◌, ◌*◌, ◌^◌, Bool, true, false, Option, none, some, ltb, if◌then◌else◌,
}
use big_x.Base.Exec.{ok, err, Exec, ◌>>◌}
use big_x.Resilience.Breaker.{CircuitBreaker, allow, record_success, record_failure}

-- What the client uses of the state that it runs in. Other tasks run while it sleeps.
pub record Clocked (S : Type 0) : Type 0 where
  pub now : S → ℕ
  pub sleep : ℕ → S → S
  pub circuit : S → CircuitBreaker
  pub set_circuit : CircuitBreaker → S → S

-- `TransientFailure` with its two messages, and an exception of the call that is passed on;
-- `type_error` is a breaker that raises.
pub data MpcError (E : Type 0) : Type 0 where
  circuit_open type_error : MpcError E
  call_failed : ℕ → Option E → MpcError E
  passed : E → MpcError E

module _ {S : Type 0} (client : Clocked S) where
  abbrev pub succeeded : S → S
  succeeded s = client.set_circuit (record_success (client.circuit s)) s

  abbrev pub failed : S → S
  failed s = client.set_circuit (record_failure (client.now s) (client.circuit s)) s

module _ {S E : Type 0} (client : Clocked S) where
  -- The sleep, if the breaker allows it.
  abbrev pub sleep_if : ℕ → Option (Bool × CircuitBreaker) → Exec (MpcError E) S (Unit {0})
  sleep_if seconds none s = (err type_error, s)
  sleep_if seconds (some (true, b)) s = (ok tt, client.sleep seconds (client.set_circuit b s))
  sleep_if seconds (some (false, b)) s = (ok tt, client.set_circuit b s)

  -- `if attempt < self.max_retries and self._circuit.allow()`
  unfoldable pub pause : ℕ → ℕ → ℕ → Exec (MpcError E) S (Unit {0})
  pause max_retries base attempt s =
      if ltb attempt max_retries
      then sleep_if (base * 2 ^ (attempt - 1)) (allow (client.now s) (client.circuit s)) s
      else (ok tt, s)

  module _ {A : Type 0} (is_permanent : E → Bool) (fn : Exec E S A) (max_retries base : ℕ) where
    -- What follows an exception of the call; `again` is the rest of the loop.
    abbrev pub on_error : E → ℕ → Exec (MpcError E) S A → Exec (MpcError E) S A
    on_error e attempt again s =
        if is_permanent e
        then (err (passed e), failed client s)
        else (do pause max_retries base attempt; again) (failed client s)

    -- The `for` loop with `left` rounds to go, after an attempt that raised `last`.
    unfoldable pub resilience_loop : ℕ → Option E → Exec (MpcError E) S A
    resilience_loop zero last s = (err (call_failed max_retries last), s)
    resilience_loop (suc left) last s = elim (fn s).0 [
      | ok a ↦ (ok a, succeeded client (fn s).1)
      | err e ↦ on_error e (max_retries - left) (resilience_loop left (some e)) (fn s).1
    ]

    abbrev pub enter : Option (Bool × CircuitBreaker) → Exec (MpcError E) S A
    enter none s = (err type_error, s)
    enter (some (false, b)) s = (err circuit_open, client.set_circuit b s)
    enter (some (true, b)) s = resilience_loop max_retries none (client.set_circuit b s)

    unfoldable pub with_resilience : Exec (MpcError E) S A
    with_resilience s = enter (allow (client.now s) (client.circuit s)) s
