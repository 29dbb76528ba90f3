-- ===== src/Events/Tests.antt =====
-- Tests of the consumer and its queues, and their theorems at concrete inputs.
use big_x.Base.{ℕ, ◌+◌, ◌≡◌, refl, String, true, false, none, some, [], ◌∷◌, arith, inl}
use big_x.Base.Exec.{Result, ok, err, Exec}
use big_x.Base.Json.{null}
use big_x.Resilience.Cache.{lookup, insert}
use big_x.Events.Consumer.{
  Message, Effect, acked, handled, marked, Broker, new_message, perform, publish_then_ack,
  handle_failure, attempt_message, process_message,
}
use big_x.Events.Settled.{Settled}
use big_x.Events.SettledLaws.{process_message-Settled}
use big_x.Events.Network.{Net, here, Reach, start, next, deliver, consumed}
use big_x.Events.NetworkLaws.{Present, in_waiting, Reach-Present}
use big_x.Events.Retries.{HandlerFails, deliveries, deliveries-HandlerFails}

-- A broker that works, whose handler gives `answer`; the world counts the runs of the handler.
abbrev act_with : Result String (Unit {0}) → Effect → Exec String ℕ (Unit {0})
act_with answer (handled event) w = (answer, w + 1)
act_with answer _ w = (ok tt, w)

abbrev broker_with : Result String (Unit {0}) → Broker ℕ
broker_with answer = record {
  act = act_with answer;
  is_processed = λ i w. (ok false, w);
  checks = true;
  marks = true;
  loads = λ body. ok null;
  int_of = λ t. none;
  max_retries = 3;
}

abbrev works : Broker ℕ
works = broker_with (ok tt)

abbrev breaks : Broker ℕ
breaks = broker_with (err "boom")

abbrev order_event : Message
order_event = new_message "e1" "c1" "order.created" "{}"

process_message-works :
    (process_message works order_event (record { history = []; world = 0 })).1.history
    ≡ acked ∷ marked "e1" ∷ handled null ∷ []
unfolding process_message attempt_message perform
process_message-works = refl

deliveries-breaks : deliveries breaks 9 order_event 0 ≡ some 4
unfolding deliveries process_message attempt_message perform handle_failure publish_then_ack lookup
    insert
deliveries-breaks = refl

process_message-Settled_example :
    Settled works order_event
      (process_message works order_event (record { history = []; world = 0 })).0
      (process_message works order_event (record { history = []; world = 0 })).1.history
process_message-Settled_example = process_message-Settled works order_event 0

abbrev queued : Net ℕ
queued = record { waiting = order_event ∷ []; retrying = []; dead = []; finished = []; world = 0 }

queued-Reach : Reach breaks queued (consumed breaks queued order_event [])
queued-Reach = next start (deliver order_event [] here)

Reach-Present_example : Present order_event (consumed breaks queued order_event [])
Reach-Present_example =
    Reach-Present breaks order_event queued-Reach
      (in_waiting (inl (record { same_id = refl; same_correlation = refl; same_body = refl })))

breaks-HandlerFails : HandlerFails breaks
breaks-HandlerFails = record {
  raises = λ event w. ("boom", refl);
  retries = λ c w. refl;
  buries = λ c w. refl;
  acks = λ w. refl;
  unknown = λ i w. refl;
  parses = λ body. (null, refl);
}

deliveries-HandlerFails_example : deliveries breaks 9 order_event 0 ≡ some (3 + 1)
unfolding lookup
deliveries-HandlerFails_example =
    deliveries-HandlerFails breaks breaks-HandlerFails 3 0 9 order_event 0 refl (omega arith) refl
