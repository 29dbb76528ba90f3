-- ===== src/Wallet/MpcLaws.antt =====
-- Proofs about the calls of the MPC wallet: how often a failing one is made, and how long it waits.
use native.Mathlib.Nat.{pow-suc}
use native.Mathlib.Decide.{dec_lt}
use big_x.Base.{
  ℕ, zero, suc, ◌+◌, ◌-◌, ◌*◌, ◌^◌, ◌≤◌, ◌<◌, ◌≡◌, refl, ap, Bool, true, false, Option, none, some,
  arith, min, ◌∙◌, ◌⊎◌, inl, inr,
}
use big_x.Base.Exec.{Result, ok, err, Exec}
use big_x.Resilience.Breaker.{CircuitBreaker, closed, allow, record_failure}
use big_x.Wallet.Mpc.{
  Clocked, MpcError, enter, call_failed, failed, pause, on_error, resilience_loop, with_resilience,
}

-- A breaker that does not wait for its next failure in the half-open state.
abbrev IsCounting : CircuitBreaker → Type 0
IsCounting b = (b.state ≡ closed) ⊎ (b.failure_threshold ≤ b.failures + 1)

-- The failures that the breaker still takes without opening.
abbrev pub slack : CircuitBreaker → ℕ
slack b = b.failure_threshold - (b.failures + 1)

is_closed :
    (b : CircuitBreaker) → IsCounting b → b.failures + 1 < b.failure_threshold → b.state ≡ closed
is_closed b (inl c) h = c
is_closed b (inr full) h = absurd (omega arith)

module _ (now : ℕ) (b : CircuitBreaker) where
  still_closed :
      b.state ≡ closed
      → b.failures + 1 < b.failure_threshold
      → let b' = record_failure now b in (allow now b' ≡ some (true, b')) × (b'.state ≡ closed)
  unfolding allow record_failure
  still_closed c h = ground arith

  trips :
      b.failure_threshold ≤ b.failures + 1
      → 0 < b.recovery_timeout
      → let b' = record_failure now b in allow now b' ≡ some (false, b')
  unfolding allow record_failure
  trips h t = ground arith

  counted :
      let b' = record_failure now b in
      (b'.failures ≡ b.failures + 1)
      × (b'.failure_threshold ≡ b.failure_threshold)
      × (b'.recovery_timeout ≡ b.recovery_timeout)
  unfolding record_failure
  counted = ground arith

-- A call that always fails, and never for good; the time that the client has slept, and the calls that
-- it has made. What runs while it sleeps leaves the breaker alone.
pub record Failing {S E A : Type 0} (client : Clocked S) (is_permanent : E → Bool) (fn : Exec E S A)
    (slept calls : S → ℕ) : Type 0 where
  pub error : S → E
  pub fails : (s : S) → (fn s).0 ≡ err (error s)
  pub transient : (s : S) → is_permanent (error s) ≡ false
  pub circuit-fn : (s : S) → client.circuit (fn s).1 ≡ client.circuit s
  pub slept-fn : (s : S) → slept (fn s).1 ≡ slept s
  pub calls-fn : (s : S) → calls (fn s).1 ≡ calls s + 1
  pub circuit-sleep : (d : ℕ) (s : S) → client.circuit (client.sleep d s) ≡ client.circuit s
  pub slept-sleep : (d : ℕ) (s : S) → slept (client.sleep d s) ≡ slept s + d
  pub calls-sleep : (d : ℕ) (s : S) → calls (client.sleep d s) ≡ calls s
  pub circuit-set : (b : CircuitBreaker) (s : S) → client.circuit (client.set_circuit b s) ≡ b
  pub now-set : (b : CircuitBreaker) (s : S) → client.now (client.set_circuit b s) ≡ client.now s
  pub slept-set : (b : CircuitBreaker) (s : S) → slept (client.set_circuit b s) ≡ slept s
  pub calls-set : (b : CircuitBreaker) (s : S) → calls (client.set_circuit b s) ≡ calls s

module _ {S E A : Type 0} (client : Clocked S) (is_permanent : E → Bool) (fn : Exec E S A)
    {slept calls : S → ℕ} (laws : Failing client is_permanent fn slept calls)
    (max_retries base : ℕ) where
  loop : ℕ → Option E → Exec (MpcError E) S A
  loop = resilience_loop client is_permanent fn max_retries base

  -- How the rest of the loop ends, from a state with that breaker.
  abbrev Ends : ℕ → ℕ → CircuitBreaker → S → Result (MpcError E) A × S → Type 0
  Ends left n b s r =
      (slept r.1 + base * 2 ^ n ≡ slept s + base * 2 ^ (n + min (left - 1) (slack b)))
      × (calls r.1 ≡ calls s + left)
      × ((e : Option E) × (r.0 ≡ err (call_failed max_retries e)))

  -- The state after a failed call, with the breaker told.
  abbrev told : S → S
  told s = failed client (fn s).1

  abbrev told_breaker : S → CircuitBreaker
  told_breaker s = record_failure (client.now (fn s).1) (client.circuit s)

  circuit-told : (s : S) → client.circuit (told s) ≡ told_breaker s
  circuit-told s = rw (laws.circuit-set, laws.circuit-fn s)

  slept-told : (s : S) → slept (told s) ≡ slept s
  slept-told s = rw (laws.slept-set, laws.slept-fn s)

  calls-told : (s : S) → calls (told s) ≡ calls s + 1
  calls-told s = rw (laws.calls-set, laws.calls-fn s)

  loop-suc :
      (left : ℕ) (last : Option E) (s w : S)
      → pause {E = E} client max_retries base (max_retries - left) (told s) ≡ (ok tt, w)
      → loop (suc left) last s ≡ loop left (some (laws.error s)) w
  unfolding loop resilience_loop
  loop-suc left last s w h =
      rw (laws.fails s, resilience_loop, on_error, laws.transient s, h, resilience_loop) refl

  -- What the loop does after a failed call: nothing after the last one, a sleep if the breaker allows
  -- it, and the next call at once if not.
  pause_last :
      (attempt : ℕ) (s : S)
      → max_retries ≤ attempt
      → pause {E = E} client max_retries base attempt s ≡ (ok tt, s)
  unfolding pause
  pause_last attempt s h = ground arith

  pause_sleeps :
      (attempt : ℕ) (b : CircuitBreaker) (s : S)
      → attempt < max_retries
      → allow (client.now s) (client.circuit s) ≡ some (true, b)
      → pause {E = E} client max_retries base attempt s
        ≡ (ok tt, client.sleep (base * 2 ^ (attempt - 1)) (client.set_circuit b s))
  unfolding pause
  pause_sleeps attempt b s h allowed = ground arith

  pause_refused :
      (attempt : ℕ) (b : CircuitBreaker) (s : S)
      → attempt < max_retries
      → allow (client.now s) (client.circuit s) ≡ some (false, b)
      → pause {E = E} client max_retries base attempt s ≡ (ok tt, client.set_circuit b s)
  unfolding pause
  pause_refused attempt b s h refused = ground arith

  allow-told :
      (s : S)
      → allow (client.now (told s)) (client.circuit (told s))
        ≡ allow (client.now (fn s).1) (told_breaker s)
  allow-told s = rw (circuit-told s, laws.now-set) refl

  -- No wait at all, as the exponent stays.
  waits-same :
      (m n : ℕ) (s w : S)
      → m ≡ 0
      → slept w ≡ slept s
      → slept w + base * 2 ^ n ≡ slept s + base * 2 ^ (n + m)
  waits-same m n s w none_left same = let e : n + m ≡ n = omega arith in rw e (omega arith)

  -- The rest of the loop after a wait of one pause, or of none with an open breaker.
  Ends-slept :
      (left n : ℕ) (b b' : CircuitBreaker) (s w : S) (r : Result (MpcError E) A × S)
      → b.failures + 1 < b.failure_threshold
      → (b'.failures ≡ b.failures + 1) × (b'.failure_threshold ≡ b.failure_threshold)
      → slept w ≡ slept s + base * 2 ^ n
      → calls w ≡ calls s + 1
      → Ends (suc left) (suc n) b' w r
      → Ends (suc (suc left)) n b s r
  Ends-slept left n b b' s w r free counts waited called (slept_r, calls_r, ended) =
      let e : suc n + min (suc left - 1) (slack b') ≡ n + min (suc (suc left) - 1) (slack b) =
        omega (arith, counts) in
      let sum = rw e at slept_r in
      (omega (arith, sum, waited, ap (λ k. base * k) (pow-suc 2 n)), omega arith, ended)

  Ends-refused :
      (left n : ℕ) (b b' : CircuitBreaker) (s w : S) (r : Result (MpcError E) A × S)
      → b.failure_threshold ≤ b.failures + 1
      → (b'.failures ≡ b.failures + 1) × (b'.failure_threshold ≡ b.failure_threshold)
      → slept w ≡ slept s
      → calls w ≡ calls s + 1
      → Ends (suc left) (suc n) b' w r
      → Ends (suc (suc left)) n b s r
  Ends-refused left n b b' s w r full counts waited called (slept_r, calls_r, ended) =
      let e : suc n + min (suc left - 1) (slack b') ≡ suc n = omega (arith, counts) in
      let e' : n + min (suc (suc left) - 1) (slack b) ≡ n = omega arith in
      let sum = rw e at slept_r in (rw e' (omega (arith, sum, waited)), omega arith, ended)

  waited :
      {m n : ℕ}
      → m ≡ n
      → (s v : S) → slept v ≡ slept s
      → slept v + base * 2 ^ m ≡ slept s + base * 2 ^ n
  waited e s v same = rw (same, e)

  loop-Ends :
      (left n : ℕ) (last : Option E) (b : CircuitBreaker) (s : S)
      → n + left ≡ max_retries
      → client.circuit s ≡ b
      → IsCounting b
      → 0 < b.recovery_timeout
      → Ends left n b s (loop left last s)
  unfolding loop resilience_loop
  loop-Ends zero n last b s e c k t =
      (waits-same (min 0 (slack b)) n s s (omega arith) refl, omega arith, (last, refl))
  loop-Ends (suc zero) n last b s e c k t =
      rw (loop-suc 0 last s (told s) (pause_last (max_retries - 0) (told s) (omega arith))) (
        waits-same (min 0 (slack b)) n s (told s) (omega arith) (slept-told s),
        omega (arith, calls-told s),
        (some (laws.error s), refl),
      )
  loop-Ends (suc (suc left)) n last b s e c k t =
      let seconds : ℕ = base * 2 ^ (max_retries - suc left - 1) in
      let number : max_retries - suc left - 1 ≡ n = omega arith in
      let now = client.now (fn s).1 in
      let b' = record_failure now b in
      let (failures, threshold, timeout) = counted now b in
      let asked : allow (client.now (told s)) (client.circuit (told s)) ≡ allow now b' =
        allow-told s ∙ ap (λ x. allow now (record_failure now x)) c in
      elim (dec_lt (b.failures + 1) b.failure_threshold) [
        | no taken ↦
            let full : b.failure_threshold ≤ b.failures + 1 = omega arith in
            let w = client.set_circuit b' (told s) in
            rw
              (loop-suc (suc left) last s w (
                pause_refused (max_retries - suc left) b' (told s) (omega arith)
                  (asked ∙ trips now b full t)))
              (Ends-refused left n b b' s w _ full (failures, threshold)
                (laws.slept-set b' (told s) ∙ slept-told s)
                (laws.calls-set b' (told s) ∙ calls-told s)
                (loop-Ends (suc left) (suc n) (some (laws.error s)) b' w (omega arith)
                  (laws.circuit-set b' (told s)) (inr (omega (arith, failures, threshold)))
                  (omega (arith, timeout))))
        | yes free ↦
            let (allowed, state) = still_closed now b (is_closed b k free) free in
            let v = client.set_circuit b' (told s) in
            let w = client.sleep seconds v in
            rw
              (loop-suc (suc left) last s w
                (pause_sleeps (max_retries - suc left) b' (told s) (omega arith) (asked ∙ allowed)))
              (Ends-slept left n b b' s w _ free (failures, threshold)
                (laws.slept-sleep seconds v
                  ∙ waited number s v (laws.slept-set b' (told s) ∙ slept-told s))
                (laws.calls-sleep seconds v ∙ laws.calls-set b' (told s) ∙ calls-told s)
                (loop-Ends (suc left) (suc n) (some (laws.error s)) b' w (omega arith)
                  (laws.circuit-sleep seconds v ∙ laws.circuit-set b' (told s)) (inl state)
                  (omega (arith, timeout))))
      ]

  allow-closed : (now : ℕ) (b : CircuitBreaker) → b.state ≡ closed → allow now b ≡ some (true, b)
  unfolding allow
  allow-closed now b c = ground arith

  with_resilience-loop :
      (s : S)
      → (client.circuit s).state ≡ closed
      → with_resilience client is_permanent fn max_retries base s
        ≡ loop max_retries none (client.set_circuit (client.circuit s) s)
  unfolding with_resilience loop
  with_resilience-loop s c = rw (allow-closed (client.now s) (client.circuit s) c, enter) refl

  -- From a closed breaker, a call that keeps failing, but never for good, is made `max_retries` times,
  -- also after the breaker has opened, and then raises that the calls failed. It sleeps with the
  -- doubling pauses only as long as its failures leave the breaker closed: after the failure that
  -- opens the breaker the other calls follow at once.
  pub with_resilience-Failing :
      (s : S)
      → (client.circuit s).state ≡ closed
      → 0 < (client.circuit s).recovery_timeout
      → let r = with_resilience client is_permanent fn max_retries base s in
        (slept r.1 + base ≡ slept s + base * 2 ^ min (max_retries - 1) (slack (client.circuit s)))
        × (calls r.1 ≡ calls s + max_retries)
        × ((e : Option E) × (r.0 ≡ err (call_failed max_retries e)))
  with_resilience-Failing s c t =
      let b = client.circuit s in
      let s' = client.set_circuit b s in
      let ends = loop-Ends max_retries 0 none b s' (omega arith) (laws.circuit-set b s) (inl c) t in
      let zeroth : 0 + min (max_retries - 1) (slack b) ≡ min (max_retries - 1) (slack b) =
        omega arith in
      let sum = rw zeroth at ends.0 in
      rw (with_resilience-loop s c)
        (omega (arith, sum, laws.slept-set b s), omega (arith, ends.1, laws.calls-set b s), ends.2)
