-- ===== src/Resilience/RetryLaws.antt =====
-- Proofs that the retry loop is what it should be: attempts one after another, each after a pause
-- that doubles, up to the first success or the limit.
use native.Mathlib.Nat.{pow-suc}
use big_x.Base.{
  ℕ, zero, suc, ◌+◌, ◌-◌, ◌*◌, ◌^◌, ◌≤◌, ◌<◌, ◌≡◌, refl, ap, true, false, Option, none, some, inl,
  inr, arith, ltb, subst, Option-cases,
}
use big_x.Base.Exec.{Result, ok, err, Exec, Result-cases}
use big_x.Resilience.Breaker.{CircuitBreaker}
use big_x.Resilience.Retry.{
  Hooks, RetryError, exhausted, on_success, on_failure, pause, retry_loop, with_retry,
}

module _ {S E A : Type 0} (hooks : Hooks S) (fn : Exec E S A) (max_retries base : ℕ)
    (start : S) where
  -- `n` attempts have failed in a row, the last with that error, and have left this state; after each
  -- failure the breaker was told, and the loop paused if an attempt was left.
  pub data Attempts : ℕ → Option E → S → Type 0 where
    none_yet : Attempts 0 none start
    one_more :
        {n : ℕ} {last : Option E} {s : S} (e : E) (u v : S)
        → Attempts n last s
        → fn s ≡ (err e, u)
        → v ≡ pause hooks max_retries base (suc n) (on_failure hooks u)
        → Attempts (suc n) (some e) v

  -- What an outcome of the loop must come from.
  abbrev pub Explained : Result (RetryError E) A × S → Type 0
  Explained (ok a, end) =
      (n : ℕ) × (last : Option E) × (s u : S) × (n < max_retries)
      × Attempts n last s
      × (fn s ≡ (ok a, u))
      × (end ≡ on_success hooks u)
  Explained (err (exhausted m last), end) = (m ≡ max_retries) × Attempts max_retries last end
  Explained (err _, end) = ⊥

  retry_loop-Explained :
      (left n : ℕ) (last : Option E) (s : S)
      → n + left ≡ max_retries
      → Attempts n last s
      → Explained (retry_loop hooks fn max_retries base left last s)
  unfolding retry_loop
  retry_loop-Explained zero n last s e h =
      let e' : n ≡ max_retries = omega arith in (refl, subst (λ m. Attempts m last s) e' h)
  retry_loop-Explained (suc left) n last s e h = elim (Result-cases (fn s).0) [
    | inl (a, won) ↦
        rw (won, retry_loop) (n, last, s, (fn s).1, omega arith, h, (λ i. (won i, (fn s).1)), refl)
    | inr (x, lost) ↦
        let number : max_retries - left ≡ suc n = omega arith in
        let paused = ap (λ k. pause hooks max_retries base k (on_failure hooks (fn s).1)) number in
        rw (lost, retry_loop)
          (retry_loop-Explained left (suc n) (some x) _ (omega arith)
            (one_more x (fn s).1 _ h (λ i. (lost i, (fn s).1)) paused))
  ]

  with_retry_unguarded :
      hooks.circuit start ≡ none
      → with_retry hooks fn max_retries base start
        ≡ retry_loop hooks fn max_retries base max_retries none start
  unfolding with_retry
  with_retry_unguarded unguarded = ground arith

  -- Without a breaker a call is explained in full: it returns what the first successful attempt
  -- returned, which came after fewer failures than `max_retries`; or exactly `max_retries` attempts
  -- failed, and it raises with the last one's error.
  pub with_retry-Explained :
      hooks.circuit start ≡ none → Explained (with_retry hooks fn max_retries base start)
  with_retry-Explained unguarded =
      rw (with_retry_unguarded unguarded)
        (retry_loop-Explained max_retries 0 none start (omega arith) none_yet)

lt→ltb : (a b : ℕ) → a < b → ltb a b ≡ true
lt→ltb a b h = ground arith

ge→ltb : (a b : ℕ) → b ≤ a → ltb a b ≡ false
ge→ltb a b h = ground arith

suc-sub-one : (n : ℕ) → suc n - 1 ≡ n
suc-sub-one n = omega arith

-- The time that a state has slept: only `sleep` moves it.
pub record Sleeps {S E A : Type 0} (hooks : Hooks S) (fn : Exec E S A) (slept : S → ℕ)
    : Type 0 where
  pub slept-sleep : (d : ℕ) (s : S) → slept (hooks.sleep d s) ≡ slept s + d
  pub slept-set : (b : CircuitBreaker) (s : S) → slept (hooks.set_circuit b s) ≡ slept s
  pub slept-fn : (s : S) → slept (fn s).1 ≡ slept s

module _ {S E A : Type 0} (hooks : Hooks S) (fn : Exec E S A) (slept : S → ℕ)
    (laws : Sleeps hooks fn slept) (max_retries base : ℕ) (start : S) where
  slept-on_failure : (s : S) → slept (on_failure hooks s) ≡ slept s
  slept-on_failure s = elim (Option-cases (hooks.circuit s)) [
    | inl unguarded ↦ rw (unguarded, on_failure)
    | inr (b, guarded) ↦ rw (guarded, on_failure) (laws.slept-set _ s)
  ]

  -- After `n` failures, the limit not yet reached, the pauses add up to `base * (2 ^ n - 1)`.
  slept-Attempts :
      {n : ℕ} {last : Option E} {s : S}
      → Attempts hooks fn max_retries base start n last s
      → n < max_retries
      → slept s + base ≡ slept start + base * 2 ^ n
  slept-Attempts none_yet h = omega arith
  slept-Attempts (one_more {n = n} {s = s} e u v before raised paused) h =
      let told : slept (on_failure hooks u) ≡ slept u = slept-on_failure u in
      let ran : slept u ≡ slept s = rw raised at (laws.slept-fn s) in
      let slept_now : slept v ≡ slept (on_failure hooks u) + base * 2 ^ n =
        rw (paused, lt→ltb (suc n) max_retries h, suc-sub-one n) (laws.slept-sleep _ _) in
      omega (
        arith,
        slept-Attempts before (omega arith),
        told,
        ran,
        slept_now,
        ap (λ k. base * k) (pow-suc 2 n),
      )

  slept_at_end :
      {last : Option E} {n : ℕ} {s : S}
      → n ≡ max_retries
      → 0 < max_retries
      → Attempts hooks fn max_retries base start n last s
      → slept s + base ≡ slept start + base * 2 ^ (max_retries - 1)
  slept_at_end e pos none_yet = absurd (omega arith)
  slept_at_end e pos (one_more {n = n} {s = s} x u v before raised paused) =
      let told : slept (on_failure hooks u) ≡ slept u = slept-on_failure u in
      let ran : slept u ≡ slept s = rw raised at (laws.slept-fn s) in
      let unslept : slept v ≡ slept (on_failure hooks u) =
        rw (paused, ge→ltb (suc n) max_retries (omega arith)) in
      let number : max_retries - 1 ≡ n = omega arith in
      rw number (omega (arith, slept-Attempts before (omega arith), told, ran, unslept))

  -- When all attempts have failed, without a breaker, the pauses between them add up to
  -- `base * (2 ^ (max_retries - 1) - 1)`.
  pub slept-with_retry :
      {last : Option E} {end : S} {m : ℕ}
      → hooks.circuit start ≡ none
      → 0 < max_retries
      → with_retry hooks fn max_retries base start ≡ (err (exhausted m last), end)
      → slept end + base ≡ slept start + base * 2 ^ (max_retries - 1)
  slept-with_retry unguarded pos e =
      let (_, attempts) =
        rw e at (with_retry-Explained hooks fn max_retries base start unguarded) in
      slept_at_end refl pos attempts
