-- ===== src/Chain/LoopLaws.antt =====
-- The induction on the shared loop: what a relation between the state before and the outcome has to
-- satisfy, so that it holds of the loop.
use big_x.Base.{
  ℕ, zero, suc, ◌-◌, ◌≡◌, refl, sym, ◌∙◌, Option, none, some, inl, inr, ltb, Bool-cases,
  Option-cases,
}
use big_x.Base.Exec.{Result, ok, err, Exec, Result-cases}
use big_x.Chain.Web3.{Web3}
use big_x.Chain.Client.{
  ClientOf, Config, AttemptError, ClientError, passed, contract_reverted, contract_call,
  contract_write, event_not_found, transaction_reverted, provider_unavailable, broken_breaker,
  nonce_error, raised, Kind, succeeded, failed, counted, count, succeed, pause_after,
}
use big_x.Chain.Loop.{attempt_loop, paused, count_end}
use big_x.Chain.Frame.{Stable}

module _ {W : Type 0} (node : Web3 W) (config : Config) {A : Type 0}
    (once : Exec AttemptError (ClientOf node) A) (ends : AttemptError → Option ClientError)
    (kind : Kind) (exhausted : Option AttemptError → ClientError) where
  abbrev pub after_pause : ℕ → ClientOf node → ClientOf node
  after_pause = paused node config once ends kind exhausted

  pub record Inductive (Q : ℕ → ClientOf node → Result ClientError A → ClientOf node → Type 0)
      : Type 0 where
    pub spent :
        (last : Option AttemptError) (c : ClientOf node)
        → Q 0 c (err (exhausted last)) (count (counted kind failed) c)
    pub won :
        (left : ℕ) (c : ClientOf node) (a : A)
        → (once c).0 ≡ ok a
        → Q (suc left) c (ok a) (count (counted kind succeeded) (succeed (once c).1))
    pub ended :
        (left : ℕ) (c : ClientOf node) (e : AttemptError) (error : ClientError)
        → (once c).0 ≡ err e
        → ends e ≡ some error
        → Q (suc left) c (err error) (count_end node config kind error (once c).1)
    pub again :
        (left : ℕ) (c : ClientOf node) (e : AttemptError) (r : Result ClientError A)
        (c' : ClientOf node)
        → (once c).0 ≡ err e
        → ends e ≡ none
        → Q left (after_pause left (once c).1) r c'
        → Q (suc left) c r c'

  pub attempt_loop-Inductive :
      (Q : ℕ → ClientOf node → Result ClientError A → ClientOf node → Type 0)
      → Inductive Q
      → (left : ℕ) (last : Option AttemptError) (c : ClientOf node)
      → Q left c
          (attempt_loop node config once ends kind exhausted left last c).0
          (attempt_loop node config once ends kind exhausted left last c).1
  unfolding attempt_loop
  attempt_loop-Inductive Q i zero last c = i.spent last c
  attempt_loop-Inductive Q i (suc left) last c = elim (Result-cases (once c).0) [
    | inl (a, returned) ↦ rw (returned, attempt_loop) (i.won left c a returned)
    | inr (e, lost) ↦ elim (Option-cases (ends e)) [
      | inl goes_on ↦
          rw (lost, goes_on, attempt_loop)
            (i.again left c e _ _ lost goes_on
              (attempt_loop-Inductive Q i left (some e) (after_pause left (once c).1)))
      | inr (error, stops) ↦ rw (lost, stops, attempt_loop) (i.ended left c e error lost stops)
    ]
  ]

  -- What is stable, and kept by an attempt, is kept by the loop.
  module _ (P : ClientOf node → Type 0) (stable : Stable P) where
    pub count_end-keeps :
        (error : ClientError) (c : ClientOf node) → P c → P (count_end node config kind error c)
    count_end-keeps (contract_reverted m) c h = stable.metrics c _ h
    count_end-keeps (passed (transaction_reverted m)) c h = stable.metrics c _ h
    count_end-keeps (passed provider_unavailable) c h = h
    count_end-keeps (passed broken_breaker) c h = h
    count_end-keeps (passed (nonce_error e)) c h = h
    count_end-keeps (passed (raised e)) c h = h
    count_end-keeps (contract_call e) c h = h
    count_end-keeps (contract_write e) c h = h
    count_end-keeps event_not_found c h = h

    pub pause_after-keeps : (left : ℕ) (c : ClientOf node) → P c → P (after_pause left c)
    pause_after-keeps left c h =
        elim (Bool-cases (ltb (config.max_retries - left) config.max_retries)) [
          | inl sleeps ↦ rw (sleeps, paused, pause_after) (stable.world _ _ (stable.circuit c _ h))
          | inr stays ↦ rw (stays, paused, pause_after) (stable.circuit c _ h)
        ]

    pub attempt_loop-keeps :
        ((c : ClientOf node) → P c → P (once c).1)
        → (left : ℕ) (last : Option AttemptError) (c : ClientOf node) → P c
        → P (attempt_loop node config once ends kind exhausted left last c).1
    attempt_loop-keeps keeps =
        attempt_loop-Inductive (λ left c r c'. P c → P c')
          (record {
            spent = λ last c h. stable.metrics c _ h;
            won = λ left c a e h. stable.metrics _ _ (stable.circuit _ _ (keeps c h));
            ended = λ left c e error x y h. count_end-keeps error _ (keeps c h);
            again = λ left c e r c' x y go h. go (pause_after-keeps left _ (keeps c h));
          })

-- Two loops agree if their attempts raise nothing that only one of them stops at.
module _ {W : Type 0} (node : Web3 W) (config : Config) {A : Type 0}
    (once : Exec AttemptError (ClientOf node) A) (ends others : AttemptError → Option ClientError)
    (kind : Kind) (exhausted : Option AttemptError → ClientError) where
  pub attempt_loop_cong :
      ((c : ClientOf node) (e : AttemptError) → (once c).0 ≡ err e → ends e ≡ others e)
      → (left : ℕ) (last : Option AttemptError) (c : ClientOf node)
      → attempt_loop node config once ends kind exhausted left last c
        ≡ attempt_loop node config once others kind exhausted left last c
  unfolding attempt_loop
  attempt_loop_cong same zero last c = refl
  attempt_loop_cong same (suc left) last c = elim (Result-cases (once c).0) [
    | inl (a, returned) ↦ rw (returned, attempt_loop) refl
    | inr (e, lost) ↦ elim (Option-cases (ends e)) [
      | inl goes_on ↦
          let goes_too : others e ≡ none = sym (same c e lost) ∙ goes_on in
          rw (lost, goes_on, goes_too, attempt_loop)
            (attempt_loop_cong same left (some e)
              (after_pause node config once ends kind exhausted left (once c).1))
      | inr (error, stops) ↦
          let stops_too : others e ≡ some error = sym (same c e lost) ∙ stops in
          rw (lost, stops, stops_too, attempt_loop) refl
    ]
  ]
