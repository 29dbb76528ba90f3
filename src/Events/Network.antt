-- ===== src/Events/Network.antt =====
-- The queues that `declare_queue` sets up, and the steps of the broker between them: a delivery to a
-- consumer, the end of a message's time in the retry queue, which sends it back to the main exchange,
-- and a publication.
use big_x.Base.{Bool, true, false, List, [], ◌∷◌, ◌++◌, if◌then◌else◌, String}
use big_x.Events.Consumer.{
  Message, Effect, retried, dead_lettered, acked, handled, known, Broker, Session, process_message,
  new_message,
}

-- The main queue, the retry queue, the dead letter queue, and the messages whose event was processed.
pub record Net (W : Type 0) : Type 0 where
  pub waiting : List Message
  pub retrying : List Message
  pub dead : List Message
  pub finished : List Message
  pub world : W

abbrev pub has_ack : List Effect → Bool
has_ack [] = false
has_ack (acked ∷ es) = true
has_ack (_ ∷ es) = has_ack es

abbrev pub completes : List Effect → Bool
completes [] = false
completes (handled _ ∷ es) = true
completes (known _ ∷ es) = true
completes (_ ∷ es) = completes es

abbrev pub to_retry : List Effect → List Message
to_retry [] = []
to_retry (retried c ∷ es) = c ∷ to_retry es
to_retry (_ ∷ es) = to_retry es

abbrev pub to_dead : List Effect → List Message
to_dead [] = []
to_dead (dead_lettered c ∷ es) = c ∷ to_dead es
to_dead (_ ∷ es) = to_dead es

-- `ys` is `xs` without one occurrence of `m`.
pub data Removes (m : Message) : List Message → List Message → Type 0 where
  here : {xs : List Message} → Removes m (m ∷ xs) xs
  there : {x : Message} {xs ys : List Message} → Removes m xs ys → Removes m (x ∷ xs) (x ∷ ys)

module _ {W : Type 0} where
  -- The queues after a delivery of `m`: a message that was not acknowledged is delivered again.
  abbrev pub deliver_to : Net W → Message → List Message → Session W → Net W
  deliver_to n m rest s = record {
    waiting = if has_ack s.history then rest else m ∷ rest;
    retrying = to_retry s.history ++ n.retrying;
    dead = to_dead s.history ++ n.dead;
    finished = if completes s.history then m ∷ n.finished else n.finished;
    world = s.world;
  }

module _ {W : Type 0} (broker : Broker W) where
  abbrev pub consumed : Net W → Message → List Message → Net W
  consumed n m rest =
      deliver_to n m rest (process_message broker m (record { history = []; world = n.world })).1

  pub data Step (n : Net W) : Net W → Type 0 where
    publish :
        (event_id correlation_id event_type body : String)
        → Step n
            (record n { waiting = new_message event_id correlation_id event_type body ∷ n.waiting })
    deliver :
        (m : Message) (rest : List Message) → Removes m n.waiting rest → Step n (consumed n m rest)
    expire :
        (m : Message) (rest : List Message)
        → Removes m n.retrying rest
        → Step n (record n { waiting = m ∷ n.waiting; retrying = rest })
    -- The world outside of the queues changes as it likes.
    pass : (w : W) → Step n (record n { world = w })

  pub data Reach (n : Net W) : Net W → Type 0 where
    start : Reach n n
    next : {o p : Net W} → Reach n o → Step o p → Reach n p
