-- ===== src/Resilience/RetryTriple.antt =====
-- A retried action keeps what its single attempt keeps, and returns with what one attempt ensures.
use big_x.Base.{
  ℕ, zero, suc, ◌-◌, Bool, true, false, Option, none, some, inl, inr, ltb, Bool-cases, Option-cases,
}
use big_x.Base.Exec.{ok, err, Exec, Result-cases}
use big_x.Base.Triple.{Post, Triple}
use big_x.Resilience.Breaker.{CircuitBreaker, allow}
use big_x.Resilience.Retry.{
  Hooks, on_success, on_failure, ask_circuit, pause, backoff, retry_loop, with_retry, gate,
}

-- A predicate that the sleeps and the breaker's changes keep.
pub record Stable {S : Type 0} (hooks : Hooks S) (P : S → Type 0) : Type 0 where
  pub asleep : (d : ℕ) (s : S) → P s → P (hooks.sleep d s)
  pub reset : (b : CircuitBreaker) (s : S) → P s → P (hooks.set_circuit b s)

module _ {S : Type 0} (hooks : Hooks S) (P : S → Type 0) (stable : Stable hooks P) where
  keeps_success : (s : S) → P s → P (on_success hooks s)
  keeps_success s h = elim (Option-cases (hooks.circuit s)) [
    | inl unguarded ↦ rw (unguarded, on_success) h
    | inr (b, guarded) ↦ rw (guarded, on_success) (stable.reset _ s h)
  ]

  keeps_failure : (s : S) → P s → P (on_failure hooks s)
  keeps_failure s h = elim (Option-cases (hooks.circuit s)) [
    | inl unguarded ↦ rw (unguarded, on_failure) h
    | inr (b, guarded) ↦ rw (guarded, on_failure) (stable.reset _ s h)
  ]

  keeps_pause : (n base k : ℕ) (s : S) → P s → P (pause hooks n base k s)
  keeps_pause n base k s h = elim (Bool-cases (ltb k n)) [
    | inl again ↦ rw (again, pause) (stable.asleep (backoff hooks base k) s h)
    | inr last ↦ rw (last, pause) h
  ]

  keeps_ask : (s : S) → P s → P (ask_circuit hooks s).1
  keeps_ask s h = elim (Option-cases (hooks.circuit s)) [
    | inl unguarded ↦ rw (unguarded, ask_circuit) h
    | inr (b, guarded) ↦ elim (Option-cases (allow (hooks.now s) b)) [
      | inl broken ↦ rw (guarded, ask_circuit, broken) h
      | inr (v, asked) ↦ rw (guarded, ask_circuit, asked) (stable.reset _ s h)
    ]
  ]

module _ {S E A : Type 0} (hooks : Hooks S) (P : S → Type 0) (stable : Stable hooks P)
    (Q : A → S → Type 0) (stable_q : (a : A) → Stable hooks (Q a)) (fn : Exec E S A)
    (one : Triple P P fn Q) (n base : ℕ) where
  retry_loop-Post :
      (left : ℕ) (last : Option E) (s : S) → P s → Post P Q (retry_loop hooks fn n base left last s)
  unfolding retry_loop
  retry_loop-Post zero last s h = h
  retry_loop-Post (suc left) last s h = elim (Result-cases (fn s).0) [
    | inl (a, won) ↦
        let q : Post {E = E} P Q (ok a, (fn s).1) = rw won at (one.at s h) in
        rw (won, retry_loop) (keeps_success hooks (Q a) (stable_q a) (fn s).1 q)
    | inr (e, lost) ↦
        let p : Post {E = E} P Q (err e, (fn s).1) = rw lost at (one.at s h) in
        rw (lost, retry_loop)
          (retry_loop-Post left (some e) _ (
            keeps_pause hooks P stable n base (n - left) _
              (keeps_failure hooks P stable (fn s).1 p)))
  ]

  gate-Post : (r : Option Bool × S) → P r.1 → Post P Q (gate hooks fn n base r)
  gate-Post (none, s) h = h
  gate-Post (some false, s) h = h
  gate-Post (some true, s) h = retry_loop-Post n none s h

  pub with_retry-Triple : Triple P P (with_retry hooks fn n base) Q
  unfolding with_retry
  with_retry-Triple = record {
    at = λ s h. gate-Post (ask_circuit hooks s) (keeps_ask hooks P stable s h);
  }
