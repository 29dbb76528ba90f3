-- ===== src/Events/SettledLaws.antt =====
-- Proofs about the consumer: a message is settled once, and acknowledged only when it is safe.
use big_x.Base.{
  ℕ, ◌+◌, ◌≡◌, refl, inl, inr, String, Bool, true, false, Option, none, some, List, [], ◌∷◌, leb,
  if◌then◌else◌,
}
use big_x.Base.Exec.{Result, ok, err, raise, ◌>>◌, Result-cases}
use big_x.Base.Spec.{Spec, Spec-bind, Spec-except, Spec-weaken}
use big_x.Base.Json.{Json}
use big_x.Resilience.Cache.{lookup}
use big_x.Events.Consumer.{
  Header, Message, Effect, retried, dead_lettered, acked, rejected, handled, marked, LoadError,
  malformed, undecodable, Broker, Session, event_id, copy, noted, perform, publish_then_ack,
  retry_count_of, rerouted, handle_failure, answered, asked, mark, decoded, attempt_message,
  process_message,
}
use big_x.Events.Settled.{
  IsOpen, IsCopy, Covers, Covered, Settled, acknowledged, requeued, left_open,
}

module _ {W : Type 0} (broker : Broker W) (m : Message) where
  abbrev OpenAt : Session W → Type 0
  OpenAt s = IsOpen s.history

  abbrev SettledAt : Result String (Unit {0}) → Session W → Type 0
  SettledAt r s = Settled broker m r s.history

  -- An effect adds itself to the history, or raises and adds nothing.
  abbrev Added : (List Effect → Type 0) → Effect → Result String (Unit {0}) → Session W → Type 0
  Added P e (ok _) s = (es : List Effect) × (s.history ≡ e ∷ es) × P es
  Added P e (err x) s = P s.history

  perform-Added :
      (P : List Effect → Type 0) (e : Effect)
      → Spec (λ s. P s.history) (perform broker e) (Added P e)
  unfolding perform
  perform-Added P e = record {
    at = λ s h. elim (Result-cases (broker.act e s.world).0) [
      | inl (u, done) ↦ rw (done, noted) (s.history, refl, h)
      | inr (x, lost) ↦ rw (lost, noted) h
    ];
  }

  abbrev Ready : List Effect → Type 0
  Ready es = IsOpen es × Covered broker m es

  -- Open, if something raised, and settled otherwise.
  abbrev Ended : Result String (Unit {0}) → Session W → Type 0
  Ended (ok u) s = SettledAt (ok tt) s
  Ended (err x) s = OpenAt s

  acks-Ended : Spec (λ s. Ready s.history) (perform broker acked) Ended
  acks-Ended = Spec-weaken (λ s h. h) (perform-Added Ready acked) after
    where
      after : (r : Result String (Unit {0})) (s : Session W) → Added Ready acked r s → Ended r s
      after (ok u) s h = acknowledged h.0 refl h.1 h.2.0 h.2.1
      after (err x) s h = h.0

  -- A copy that is published and acknowledged, or a requeued message, or neither.
  publish_then_ack-Settled :
      (e : Effect)
      → Covers broker m e
      → ((es : List Effect) → IsOpen es → IsOpen (e ∷ es))
      → Spec OpenAt (publish_then_ack broker e) SettledAt
  unfolding publish_then_ack
  publish_then_ack-Settled e covers opens =
      Spec-except {Q = Ended} (perform broker e >> perform broker acked)
        (λ x. perform broker rejected)
        (Spec-bind (perform broker e) _ (perform-Added IsOpen e)
          (λ u. Spec-weaken ready acks-Ended (λ r s h. h)) (λ x s h. h))
        (λ u s h. h) (λ x. Spec-weaken (λ s h. h) (perform-Added IsOpen rejected) requeues)
    where
      ready : (s : Session W) → Added IsOpen e (ok tt) s → Ready s.history
      ready s h = rw h.1 (opens h.0 h.2, inl covers)

      requeues :
          (r : Result String (Unit {0})) (s : Session W) → Added IsOpen rejected r s → SettledAt r s
      requeues (ok u) s h = requeued h.0 refl h.1 h.2
      requeues (err x) s h = left_open x refl h

  handle_failure-Settled : (error : String) → Spec OpenAt (handle_failure broker m error) SettledAt
  unfolding handle_failure
  handle_failure-Settled error = counted (retry_count_of broker (lookup "retry_count" m.headers))
    where
      moved : (headers : List (String × Header)) → IsCopy m (copy m headers)
      moved headers = record { same_id = refl; same_correlation = refl; same_body = refl }

      rerouted-Settled :
          (next : ℕ) (within : Bool)
          → leb next broker.max_retries ≡ within
          → Spec OpenAt (publish_then_ack broker (rerouted broker m error next)) SettledAt
      rerouted-Settled next true e =
          rw (e, rerouted) (publish_then_ack-Settled (retried (copy m _)) (moved _) (λ es o. o))
      rerouted-Settled next false e =
          rw (e, rerouted)
            (publish_then_ack-Settled (dead_lettered (copy m _)) (moved _) (λ es o. o))

      counted :
          (o : Option ℕ)
          → Spec OpenAt
              (elim o [
                | none ↦ raise "ValueError"
                | some n ↦ publish_then_ack broker (rerouted broker m error (n + 1))
              ])
              SettledAt
      counted none = record { at = λ s h. left_open "ValueError" refl h }
      counted (some n) = rerouted-Settled (n + 1) _ refl

  -- A positive answer of `is_processed` covers the message.
  abbrev Checked : Result String Bool → Session W → Type 0
  Checked (ok true) s = Ready s.history
  Checked (ok false) s = OpenAt s
  Checked (err x) s = OpenAt s

  asked-Checked :
      (checks : Bool) (i : Option String)
      → event_id m ≡ i
      → Spec OpenAt (asked broker checks i) Checked
  asked-Checked true (some i) e = record {
    at = λ s h.
        answer (broker.is_processed i s.world).0
          (record s { world = (broker.is_processed i s.world).1 }) h;
  }
    where
      answer :
          (r : Result String Bool) (s : Session W)
          → OpenAt s
          → Checked (answered broker i r s).0 (answered broker i r s).1
      answer (ok true) s h = (h, inl e)
      answer (ok false) s h = h
      answer (err x) s h = h
  asked-Checked true none e = record { at = λ s h. h }
  asked-Checked false i e = record { at = λ s h. h }

  -- After the handler the message is covered, whether it is marked or not.
  abbrev Kept : Result String (Unit {0}) → Session W → Type 0
  Kept (ok u) s = Ready s.history
  Kept (err x) s = OpenAt s

  mark-Kept :
      (marks : Bool) (i : Option String) → Spec (λ s. Ready s.history) (mark broker marks i) Kept
  mark-Kept true (some i) = Spec-weaken (λ s h. h) (perform-Added Ready (marked i)) after
    where
      after : (r : Result String (Unit {0})) (s : Session W) → Added Ready (marked i) r s → Kept r s
      after (ok u) s h = rw h.1 (h.2.0, inr h.2.1)
      after (err x) s h = h.0
  mark-Kept true none = record { at = λ s h. h }
  mark-Kept false i = record { at = λ s h. h }

  settled-Ended : (r : Result String (Unit {0})) (s : Session W) → SettledAt r s → Ended r s
  settled-Ended (ok u) s h = h
  settled-Ended (err x) s (acknowledged es e h o c) = cc
  settled-Ended (err x) s (requeued es e h o) = cc
  settled-Ended (err x) s (left_open y e o) = o

  decoded-Ended :
      (r : Result LoadError Json) → broker.loads m.body ≡ r → Spec OpenAt (decoded broker m r) Ended
  decoded-Ended (ok event) e =
      Spec-bind (perform broker (handled event)) _ (perform-Added IsOpen (handled event))
        (λ u.
          Spec-weaken handled_now
            (Spec-bind (mark broker broker.marks (event_id m)) _
              (mark-Kept broker.marks (event_id m)) (λ v. acks-Ended) (λ x s h. h))
            (λ q s h. h))
        (λ x s h. h)
    where
      handled_now : (s : Session W) → Added IsOpen (handled event) (ok tt) s → Ready s.history
      handled_now s h = rw h.1 (h.2, inl e)
  decoded-Ended (err (malformed reason)) e =
      Spec-weaken (λ s h. h)
        (publish_then_ack-Settled (dead_lettered (copy m _))
          (record { same_id = refl; same_correlation = refl; same_body = refl }) (λ es o. o))
        settled-Ended
  decoded-Ended (err (undecodable reason)) e = record { at = λ s h. h }

  attempt_message-Ended : Spec OpenAt (attempt_message broker m) Ended
  unfolding attempt_message
  attempt_message-Ended =
      Spec-bind (asked broker broker.checks (event_id m)) _
        (asked-Checked broker.checks (event_id m) refl) next (λ x s h. h)
    where
      next :
          (duplicate : Bool)
          → Spec
              (Checked (ok duplicate))
              (if duplicate then perform broker acked else decoded broker m (broker.loads m.body))
              Ended
      next true = acks-Ended
      next false = decoded-Ended (broker.loads m.body) refl

  -- Whatever the broker, the handler and the database do, a delivery ends in one of three ways. It is
  -- acknowledged once, and not rejected, after the handler ran on its event, or the event was found to
  -- be processed before, or a copy with its identifiers and its body was published for a retry or as a
  -- dead letter. Or it is requeued once and not acknowledged. Or an exception leaves it neither
  -- acknowledged nor rejected, which the broker takes for undelivered.
  pub process_message-Settled :
      (w : W)
      → Settled broker m
          (process_message broker m (record { history = []; world = w })).0
          (process_message broker m (record { history = []; world = w })).1.history
  unfolding process_message
  process_message-Settled w =
      (Spec-except {Q = Ended} {R = SettledAt} (attempt_message broker m) (handle_failure broker m)
          attempt_message-Ended (λ u s h. h) handle_failure-Settled).at
        _ tt
