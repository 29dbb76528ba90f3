-- ===== src/Wallet/MpcTests.antt =====
-- Tests of the calls of the MPC wallet, and their theorem at a concrete input.
use big_x.Base.{ℕ, ◌+◌, ◌*◌, ◌^◌, ◌≡◌, refl, Bool, true, false, Option, min, ◌-◌, arith}
use big_x.Base.Exec.{err, Exec}
use big_x.Resilience.Breaker.{CircuitBreaker, new_breaker, allow, record_failure}
use big_x.Wallet.Mpc.{Clocked, call_failed, pause, resilience_loop, with_resilience}
use big_x.Wallet.MpcLaws.{Failing, slack, with_resilience-Failing}

record Site : Type 0 where
  clock : ℕ
  breaker : CircuitBreaker
  slept : ℕ
  calls : ℕ

abbrev site : Clocked Site
site = record {
  now = λ s. s.clock;
  sleep = λ d s. record s { clock = s.clock + d; slept = s.slept + d };
  circuit = λ s. s.breaker;
  set_circuit = λ b s. record s { breaker = b };
}

data Fault : Type 0 where
  busy forbidden : Fault

abbrev is_permanent : Fault → Bool
is_permanent busy = false
is_permanent forbidden = true

abbrev always : Fault → Exec Fault Site ℕ
always e s = (err e, record s { calls = s.calls + 1 })

-- A breaker of two failures.
abbrev fresh : Site
fresh = record { clock = 100; breaker = new_breaker 2 30; slept = 0; calls = 0 }

-- A permanent failure ends the loop at once.
forbidden_once : (with_resilience site is_permanent (always forbidden) 5 1 fresh).1.calls ≡ 1
unfolding with_resilience resilience_loop allow record_failure
forbidden_once = refl

-- Five calls, and one sleep.
five_calls : (with_resilience site is_permanent (always busy) 5 1 fresh).1.calls ≡ 5
unfolding with_resilience resilience_loop pause allow record_failure
five_calls = refl

always_busy : Failing site is_permanent (always busy) (λ s. s.slept) (λ s. s.calls)
always_busy = record {
  error = λ s. busy;
  fails = λ s. refl;
  transient = λ s. refl;
  circuit-fn = λ s. refl;
  slept-fn = λ s. refl;
  calls-fn = λ s. refl;
  circuit-sleep = λ d s. refl;
  slept-sleep = λ d s. refl;
  calls-sleep = λ d s. refl;
  circuit-set = λ b s. refl;
  now-set = λ b s. refl;
  slept-set = λ b s. refl;
  calls-set = λ b s. refl;
}

with_resilience-Failing_example :
    let r = with_resilience site is_permanent (always busy) 5 1 fresh in
    (r.1.slept + 1 ≡ 0 + 1 * 2 ^ min (5 - 1) (slack (new_breaker 2 30)))
    × (r.1.calls ≡ 0 + 5)
    × ((e : Option Fault) × (r.0 ≡ err (call_failed 5 e)))
with_resilience-Failing_example =
    with_resilience-Failing site is_permanent (always busy) always_busy 5 1 fresh refl (omega arith)
