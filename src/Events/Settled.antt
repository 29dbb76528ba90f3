-- ===== src/Events/Settled.antt =====
-- What it means that a delivery ends well.
use big_x.Base.{◌≡◌, ◌⊎◌, String, some, List, [], ◌∷◌}
use big_x.Base.Exec.{Result, ok, err}
use big_x.Events.Consumer.{
  Message, Effect, retried, dead_lettered, acked, rejected, handled, known, Broker, event_id,
}

-- No acknowledgement and no rejection yet.
abbrev pub IsOpen : List Effect → Type 0
IsOpen [] = Unit
IsOpen (acked ∷ es) = ⊥
IsOpen (rejected ∷ es) = ⊥
IsOpen (e ∷ es) = IsOpen es

-- A message with the content of another.
pub record IsCopy (m c : Message) : Type 0 where
  pub same_id : c.message_id ≡ m.message_id
  pub same_correlation : c.correlation_id ≡ m.correlation_id
  pub same_body : c.body ≡ m.body

module _ {W : Type 0} (broker : Broker W) (m : Message) where
  -- What makes an acknowledgement safe: the handler ran on the event of the message, the event was
  -- processed before, or a copy of the message is at the retry or the dead letter exchange.
  abbrev pub Covers : Effect → Type 0
  Covers (handled event) = broker.loads m.body ≡ ok event
  Covers (known i) = event_id m ≡ some i
  Covers (retried c) = IsCopy m c
  Covers (dead_lettered c) = IsCopy m c
  Covers _ = ⊥

  abbrev pub Covered : List Effect → Type 0
  Covered [] = ⊥
  Covered (e ∷ es) = Covers e ⊎ Covered es

  -- The ways in which a delivery ends.
  pub data Settled (r : Result String (Unit {0})) (h : List Effect) : Type 0 where
    acknowledged :
        (es : List Effect) → r ≡ ok tt → h ≡ acked ∷ es → IsOpen es → Covered es → Settled r h
    requeued : (es : List Effect) → r ≡ ok tt → h ≡ rejected ∷ es → IsOpen es → Settled r h
    left_open : (x : String) → r ≡ err x → IsOpen h → Settled r h
