-- ===== src/Resilience/BreakerLaws.antt =====
-- Proofs about the circuit breaker as a state machine.
use big_x.Base.{
  ℕ, ◌+◌, ◌-◌, ◌≤◌, ◌<◌, ◌≡◌, ◌≢◌, Bool, Option, none, some, List, [], ◌∷◌, arith, leb, length,
}
use big_x.Resilience.Breaker.{
  CircuitState, closed, opened, half_open, CircuitBreaker, new_breaker, allow, record_success,
  record_failure,
}

-- What a caller does to a breaker, each with its reading of the clock.
pub data Call : Type 0 where
  ask : ℕ → Call
  success : Call
  failure : ℕ → Call

abbrev keep : CircuitBreaker → Option (Bool × CircuitBreaker) → CircuitBreaker
keep b none = b
keep b (some (allowed, b')) = b'

unfoldable pub run : List Call → CircuitBreaker → CircuitBreaker
run [] b = b
run (ask now ∷ calls) b = run calls (keep b (allow now b))
run (success ∷ calls) b = run calls (record_success b)
run (failure now ∷ calls) b = run calls (record_failure now b)

abbrev pub StateOk : CircuitState → CircuitBreaker → Type 0
StateOk closed b = b.failures < b.failure_threshold
StateOk opened b = b.opened_at ≢ none
StateOk half_open b = Unit

-- A closed breaker has fewer failures than its threshold, and an open one has an opening time.
pub record IsSound (b : CircuitBreaker) : Type 0 where
  pub state_ok : StateOk b.state b
  pub positive : 0 < b.failure_threshold

IsSound-new : (threshold timeout : ℕ) → 0 < threshold → IsSound (new_breaker threshold timeout)
IsSound-new threshold timeout h = record { state_ok = h; positive = h }

allow-IsSound : (now : ℕ) (b : CircuitBreaker) → IsSound b → IsSound (keep b (allow now b))
unfolding allow
allow-IsSound now b h = ground arith

record_success-IsSound : (b : CircuitBreaker) → IsSound b → IsSound (record_success b)
unfolding record_success
record_success-IsSound b h = record { state_ok = h.positive; positive = h.positive }

record_failure-IsSound : (now : ℕ) (b : CircuitBreaker) → IsSound b → IsSound (record_failure now b)
unfolding record_failure
record_failure-IsSound now b h = ground arith

run-IsSound_at : (calls : List Call) (b : CircuitBreaker) → IsSound b → IsSound (run calls b)
unfolding run
run-IsSound_at [] b h = h
run-IsSound_at (ask now ∷ calls) b h = run-IsSound_at calls _ (allow-IsSound now b h)
run-IsSound_at (success ∷ calls) b h = run-IsSound_at calls _ (record_success-IsSound b h)
run-IsSound_at (failure now ∷ calls) b h = run-IsSound_at calls _ (record_failure-IsSound now b h)

allow_total_at : (now : ℕ) (b : CircuitBreaker) → IsSound b → allow now b ≢ none
unfolding allow
allow_total_at now b h = ground arith

-- After any calls on a fresh breaker with a positive threshold, asking it never raises, and a
-- breaker that is closed has seen fewer failures in a row than its threshold.
pub run-allow_total :
    (calls : List Call) (threshold timeout now : ℕ)
    → 0 < threshold
    → let b = run calls (new_breaker threshold timeout) in (allow now b ≢ none) × StateOk b.state b
run-allow_total calls threshold timeout now h =
    let sound = run-IsSound_at calls _ (IsSound-new threshold timeout h) in
    (allow_total_at now _ sound, sound.state_ok)

abbrev pub failures_at : List ℕ → List Call
failures_at [] = []
failures_at (t ∷ ts) = failure t ∷ failures_at ts

abbrev pub verdict : Option (Bool × CircuitBreaker) → Option Bool
verdict none = none
verdict (some (allowed, b)) = some allowed

-- Failures only count up, and leave the configuration alone.
counts :
    (ts : List ℕ) (b : CircuitBreaker)
    → let b' = run (failures_at ts) b in
      (b'.failures ≡ b.failures + length ts)
      × (b'.failure_threshold ≡ b.failure_threshold)
      × (b'.recovery_timeout ≡ b.recovery_timeout)
unfolding run record_failure
counts [] b = omega arith
counts (t ∷ ts) b = ground (arith, counts ts (record_failure t b))

-- When failures with no success between them, counted with those that the breaker has already seen,
-- reach the threshold, the breaker refuses every call until the timeout has passed since the last
-- failure, and allows the next one from then on.
pub failures_open :
    (ts : List ℕ) (t now : ℕ) (b : CircuitBreaker)
    → b.failure_threshold ≤ b.failures + length ts + 1
    → verdict (allow now (record_failure t (run (failures_at ts) b)))
      ≡ some (leb b.recovery_timeout (now - t))
unfolding allow record_failure
failures_open ts t now b h = ground (arith, counts ts b)
