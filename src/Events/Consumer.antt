-- ===== src/Events/Consumer.antt =====
-- `publish`, `process_message` in `consume`, `_handle_failure` and `_route_to_dlq_explicitly`. The
-- broker, the handler, the database of processed events and the JSON parser are the record Broker;
-- metrics and log lines are left out.
use big_x.Base.{
  ℕ, ◌+◌, String, Bool, true, false, Option, none, some, List, [], ◌∷◌, leb, if◌then◌else◌,
}
use big_x.Base.Exec.{Result, ok, err, Exec, pure, raise, ◌>>=◌, ◌>>◌}
use big_x.Base.Spec.{except}
use big_x.Base.Json.{Json}
use big_x.Resilience.Cache.{lookup, insert}
use Prim.Native.String.{◌++◌ as ◌<>◌}
use package.text.Mathlib.Text.{◌==◌}

-- A header's value. The retry counts that the client writes are numbers.
pub data Header : Type 0 where
  num : ℕ → Header
  word : String → Header

pub record Message : Type 0 where
  pub message_id : Option String
  pub correlation_id : Option String
  pub content_type : Option String
  pub body : String
  pub headers : List (String × Header)

-- What a consumer does, when it succeeds: a publication to the retry or the dead letter exchange, an
-- `ack`, a `reject(requeue=True)`, a run of the handler, `mark_processed`, and an answer of
-- `is_processed` that the event was processed before.
pub data Effect : Type 0 where
  retried dead_lettered : Message → Effect
  acked rejected : Effect
  handled : Json → Effect
  marked known : String → Effect

-- What `json.loads(message.body.decode())` raises: `JSONDecodeError`, or another exception.
pub data LoadError : Type 0 where
  malformed undecodable : String → LoadError

-- `checks` and `marks` say whether `is_processed` and `mark_processed` were given; `max_retries` is
-- MAX_RETRIES, 3 unless the environment says otherwise.
pub record Broker (W : Type 0) : Type 0 where
  pub act : Effect → Exec String W (Unit {0})
  pub is_processed : String → Exec String W Bool
  pub checks : Bool
  pub marks : Bool
  pub loads : String → Result LoadError Json
  pub int_of : String → Option ℕ
  pub max_retries : ℕ

-- The history of the effects, the latest first, and the world around it.
pub record Session (W : Type 0) : Type 0 where
  pub history : List Effect
  pub world : W

-- `if event_id and ...`: a missing or empty identifier does not count.
abbrev pub event_id : Message → Option String
event_id m = elim m.message_id [ none ↦ none | some i ↦ if i == "" then none else some i ]

abbrev pub or_json : Option String → String
or_json none = "application/json"
or_json (some t) = if t == "" then "application/json" else t

-- The copy of a message with other headers.
abbrev pub copy : Message → List (String × Header) → Message
copy m headers = record m { content_type = some (or_json m.content_type); headers = headers }

-- The message that `publish` makes of an event and its serialisation.
abbrev pub new_message : String → String → String → String → Message
new_message event_id correlation_id event_type body = record {
  message_id = some event_id;
  correlation_id = some correlation_id;
  content_type = some "application/json";
  body = body;
  headers = ("event_type", word event_type) ∷ ("retry_count", num 0) ∷ [];
}

module _ {W : Type 0} (broker : Broker W) where
  abbrev pub noted : Effect → Result String (Unit {0}) → Exec String (Session W) (Unit {0})
  noted e (ok _) s = (ok tt, record s { history = e ∷ s.history })
  noted e (err x) s = (err x, s)

  unfoldable pub perform : Effect → Exec String (Session W) (Unit {0})
  perform e s = noted e (broker.act e s.world).0 (record s { world = (broker.act e s.world).1 })

  -- A copy is published and then the message acknowledged; if either fails it is requeued.
  unfoldable pub publish_then_ack : Effect → Exec String (Session W) (Unit {0})
  publish_then_ack e = except (do perform e; perform acked) (λ x. perform rejected)

  -- `int(headers.get("retry_count", 0))`, and `none` where it raises
  abbrev pub retry_count_of : Option Header → Option ℕ
  retry_count_of none = some 0
  retry_count_of (some (num n)) = some n
  retry_count_of (some (word t)) = broker.int_of t

  -- `_route_to_dlq_explicitly`
  abbrev pub route_to_dlq : Message → String → Exec String (Session W) (Unit {0})
  route_to_dlq m reason =
      publish_then_ack (dead_lettered (copy m (insert "failure_reason" (word reason) m.headers)))

  -- Where a message goes whose next attempt would be its `next`-th retry.
  abbrev pub rerouted : Message → String → ℕ → Effect
  rerouted m error next =
      let headers = insert "retry_count" (num next) m.headers in
      if leb next broker.max_retries
      then retried (copy m headers)
      else dead_lettered
          (copy m (insert "failure_reason" (word ("Max retries exceeded: " <> error)) headers))

  -- `_handle_failure`
  unfoldable pub handle_failure : Message → String → Exec String (Session W) (Unit {0})
  handle_failure m error = elim (retry_count_of (lookup "retry_count" m.headers)) [
    | none ↦ raise "ValueError"
    | some n ↦ publish_then_ack (rerouted m error (n + 1))
  ]

  abbrev pub answered : String → Result String Bool → Exec String (Session W) Bool
  answered i (ok true) s = (ok true, record s { history = known i ∷ s.history })
  answered i (ok false) s = (ok false, s)
  answered i (err x) s = (err x, s)

  abbrev pub asked : Bool → Option String → Exec String (Session W) Bool
  asked true (some i) s =
      answered i (broker.is_processed i s.world).0
        (record s { world = (broker.is_processed i s.world).1 })
  asked _ _ s = (ok false, s)

  abbrev pub mark : Bool → Option String → Exec String (Session W) (Unit {0})
  mark true (some i) = perform (marked i)
  mark _ _ = pure tt

  abbrev pub decoded : Message → Result LoadError Json → Exec String (Session W) (Unit {0})
  decoded m (ok event) = do perform (handled event); mark broker.marks (event_id m); perform acked
  decoded m (err (malformed reason)) = route_to_dlq m ("Malformed JSON: " <> reason)
  decoded m (err (undecodable reason)) = raise reason

  -- What stands in the `try` of `process_message`.
  unfoldable pub attempt_message : Message → Exec String (Session W) (Unit {0})
  attempt_message m = do
    duplicate ← asked broker.checks (event_id m)
    if duplicate then perform acked else decoded m (broker.loads m.body)

  -- `process_message`
  unfoldable pub process_message : Message → Exec String (Session W) (Unit {0})
  process_message m = except (attempt_message m) (handle_failure m)
