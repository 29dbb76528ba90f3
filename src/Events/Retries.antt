-- ===== src/Events/Retries.antt =====
-- How often a message is delivered whose handler always fails.
use big_x.Base.{
  ℕ, zero, suc, ◌+◌, ◌<◌, ◌≡◌, refl, ap, String, Bool, true, false, Option, none, some, List, [],
  ◌∷◌, arith, leb, Bool-cases, inl, inr, if◌then◌else◌,
}
use big_x.Base.Exec.{Result, ok, err, ◌>>◌}
use big_x.Base.Spec.{Spec, Spec-bind, Spec-except, Spec-weaken}
use big_x.Base.Json.{Json}
use big_x.Resilience.Cache.{lookup, insert}
use big_x.Resilience.CacheLaws.{lookup-insert}
use big_x.Events.Consumer.{
  num, Message, Effect, retried, dead_lettered, acked, rejected, handled, Broker, Session, event_id,
  copy, noted, perform, publish_then_ack, retry_count_of, rerouted, handle_failure, answered, asked,
  decoded, attempt_message, process_message,
}
use big_x.Events.Network.{to_retry}
use package.text.Mathlib.TextEquality.{eq_iff}

-- A broker that works, with a handler that always raises, and events that were not processed before.
pub record HandlerFails {W : Type 0} (broker : Broker W) : Type 0 where
  pub raises : (event : Json) (w : W) → (x : String) × ((broker.act (handled event) w).0 ≡ err x)
  pub retries : (c : Message) (w : W) → (broker.act (retried c) w).0 ≡ ok tt
  pub buries : (c : Message) (w : W) → (broker.act (dead_lettered c) w).0 ≡ ok tt
  pub acks : (w : W) → (broker.act acked w).0 ≡ ok tt
  pub unknown : (i : String) (w : W) → (broker.is_processed i w).0 ≡ ok false
  pub parses : (body : String) → (event : Json) × (broker.loads body ≡ ok event)

module _ {W : Type 0} (broker : Broker W) where
  -- The number of deliveries of a message and its retries, as far as `fuel` goes.
  unfoldable pub deliveries : ℕ → Message → W → Option ℕ
  deliveries zero m w = none
  deliveries (suc fuel) m w =
      let s = (process_message broker m (record { history = []; world = w })).1 in
      elim (to_retry s.history) [
        | [] ↦ some 1
        | c ∷ cs ↦ elim (deliveries fuel c s.world) [ none ↦ none | some k ↦ some (suc k) ]
      ]

  module _ (fails : HandlerFails broker) (m : Message) where
    abbrev Fresh : Session W → Type 0
    Fresh s = s.history ≡ []

    abbrev Raised : {A : Type 0} → Result String A → Session W → Type 0
    Raised (ok a) s = ⊥
    Raised (err x) s = Fresh s

    abbrev NotKnown : Result String Bool → Session W → Type 0
    NotKnown (ok b) s = (b ≡ false) × Fresh s
    NotKnown (err x) s = ⊥

    asked-NotKnown :
        (checks : Bool) (i : Option String) → Spec Fresh (asked broker checks i) NotKnown
    asked-NotKnown true (some i) = record {
      at = λ s h. rw (fails.unknown i s.world, answered) (refl, h);
    }
    asked-NotKnown true none = record { at = λ s h. (refl, h) }
    asked-NotKnown false i = record { at = λ s h. (refl, h) }

    handled-Raised : (event : Json) → Spec Fresh (perform broker (handled event)) Raised
    unfolding perform
    handled-Raised event = record { at = λ s h. rw ((fails.raises event s.world).1, noted) h }

    attempt_message-Raised : Spec Fresh (attempt_message broker m) Raised
    unfolding attempt_message
    attempt_message-Raised =
        Spec-bind (asked broker broker.checks (event_id m)) _
          (asked-NotKnown broker.checks (event_id m)) go (λ x s bad. absurd bad)
      where
        go :
            (duplicate : Bool)
            → Spec
                (NotKnown (ok duplicate))
                (if duplicate then perform broker acked else decoded broker m (broker.loads m.body))
                Raised
        go true = record { at = λ s h. cc }
        go false =
            Spec-weaken (λ s h. h.1)
              (rw ((fails.parses m.body).1, decoded)
                (Spec-bind (perform broker (handled (fails.parses m.body).0)) _
                  (handled-Raised (fails.parses m.body).0)
                  (λ u. record { at = λ s bad. absurd bad }) (λ x s h. h)))
              (λ r s h. h)

    -- The history is exactly `es`, and nothing was raised.
    abbrev Did : List Effect → Result String (Unit {0}) → Session W → Type 0
    Did es (ok u) s = s.history ≡ es
    Did es (err x) s = ⊥

    perform-Did :
        (e : Effect) (es : List Effect)
        → ((w : W) → (broker.act e w).0 ≡ ok tt)
        → Spec (λ s. s.history ≡ es) (perform broker e) (Did (e ∷ es))
    unfolding perform
    perform-Did e es works = record { at = λ s h. rw (works s.world, noted) (ap (λ l. e ∷ l) h) }

    publish_then_ack-Did :
        (e : Effect)
        → ((w : W) → (broker.act e w).0 ≡ ok tt)
        → Spec Fresh (publish_then_ack broker e) (Did (acked ∷ e ∷ []))
    unfolding publish_then_ack
    publish_then_ack-Did e works =
        Spec-except {Q = Did (acked ∷ e ∷ [])} (perform broker e >> perform broker acked)
          (λ x. perform broker rejected)
          (Spec-bind (perform broker e) _ (perform-Did e [] works)
            (λ u. perform-Did acked (e ∷ []) fails.acks) (λ x s bad. absurd bad))
          (λ u s h. h) (λ x. record { at = λ s bad. absurd bad })

    rerouted_works :
        (x : String) (next : ℕ) (w : W) → (broker.act (rerouted broker m x next) w).0 ≡ ok tt
    rerouted_works x next w = elim (Bool-cases (leb next broker.max_retries)) [
      | inl within ↦ rw (within, rerouted) (fails.retries _ w)
      | inr beyond ↦ rw (beyond, rerouted) (fails.buries _ w)
    ]

    -- The failed delivery of a message with the retry count `n` moves it on with the count `n + 1`.
    abbrev MovedOn : ℕ → Result String (Unit {0}) → Session W → Type 0
    MovedOn n r s = (x : String) × (s.history ≡ acked ∷ rerouted broker m x (n + 1) ∷ [])

    Did-MovedOn :
        (n : ℕ) (x : String) (r : Result String (Unit {0})) (s : Session W)
        → Did (acked ∷ rerouted broker m x (n + 1) ∷ []) r s
        → MovedOn n r s
    Did-MovedOn n x (ok u) s h = (x, h)
    Did-MovedOn n x (err y) s h = absurd h

    process_message-MovedOn :
        (n : ℕ)
        → lookup "retry_count" m.headers ≡ some (num n)
        → Spec Fresh (process_message broker m) (MovedOn n)
    unfolding process_message handle_failure
    process_message-MovedOn n e =
        Spec-except {Q = Raised} (attempt_message broker m) (handle_failure broker m)
          attempt_message-Raised (λ u s bad. absurd bad)
          (λ x.
            rw (handle_failure, e, retry_count_of)
              (Spec-weaken (λ s h. h)
                (publish_then_ack-Did (rerouted broker m x (n + 1)) (rerouted_works x (n + 1)))
                (Did-MovedOn n x)))

  counts_up :
      (m : Message) (n : ℕ)
      → lookup "retry_count" (insert "retry_count" (num n) m.headers) ≡ some (num n)
  counts_up m n = ground (
    arith,
    lookup-insert "retry_count" "retry_count" (num n) m.headers,
    eq_iff "retry_count" "retry_count",
  )

  -- A message that is at its `n`-th retry and whose handler always fails is delivered
  -- `max_retries - n + 1` times and then no more, for any fuel above this number. So a published
  -- message, with `n` zero, is delivered `max_retries + 1` times.
  pub deliveries-HandlerFails :
      (fails : HandlerFails broker) (left n fuel : ℕ) (m : Message) (w : W)
      → n + left ≡ broker.max_retries
      → left < fuel
      → lookup "retry_count" m.headers ≡ some (num n)
      → deliveries fuel m w ≡ some (left + 1)
  unfolding deliveries
  deliveries-HandlerFails fails left n zero m w total enough e = absurd (omega arith)
  deliveries-HandlerFails fails zero n (suc fuel) m w total enough e =
      let moved =
        (process_message-MovedOn fails m n e).at (record { history = []; world = w }) refl in
      let beyond : leb (n + 1) broker.max_retries ≡ false = ground arith in
      rw (deliveries, moved.1, to_retry, rerouted, beyond) refl
  deliveries-HandlerFails fails (suc left) n (suc fuel) m w total enough e =
      let moved =
        (process_message-MovedOn fails m n e).at (record { history = []; world = w }) refl in
      let within : leb (n + 1) broker.max_retries ≡ true = ground arith in
      let c = copy m (insert "retry_count" (num (n + 1)) m.headers) in
      let more =
        deliveries-HandlerFails fails left (n + 1) fuel c
          (process_message broker m (record { history = []; world = w })).1.world (omega arith)
          (omega arith) (counts_up m (n + 1)) in
      rw (deliveries, moved.1, to_retry, rerouted, within, more) (ap some (omega arith))
