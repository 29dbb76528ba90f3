-- ===== src/Events/NetworkLaws.antt =====
-- A proof that no message is lost between the queues.
use big_x.Base.{
  Bool, true, false, List, [], ◌∷◌, ◌++◌, ◌≡◌, refl, ◌∙◌, ◌⊎◌, inl, inr, String, if◌then◌else◌,
}
use big_x.Base.Exec.{Result}
use big_x.Events.Consumer.{
  Message, Effect, retried, dead_lettered, acked, rejected, handled, marked, known, Broker, Session,
}
use big_x.Events.Settled.{IsOpen, IsCopy, Covered, Settled, acknowledged, requeued, left_open}
use big_x.Events.SettledLaws.{process_message-Settled}
use big_x.Events.Network.{
  Net, has_ack, completes, to_retry, to_dead, Removes, here, there, deliver_to, consumed, Step,
  publish, deliver, expire, pass, Reach, start, next,
}

-- A copy of `m` is in the list.
abbrev pub HasCopy : Message → List Message → Type 0
HasCopy m [] = ⊥
HasCopy m (x ∷ xs) = IsCopy m x ⊎ HasCopy m xs

-- A copy of the message waits, is to be retried, is dead, or its event was processed.
pub data Present {W : Type 0} (m : Message) (n : Net W) : Type 0 where
  in_waiting : HasCopy m n.waiting → Present m n
  in_retrying : HasCopy m n.retrying → Present m n
  in_dead : HasCopy m n.dead → Present m n
  in_finished : HasCopy m n.finished → Present m n

IsCopy-trans : {a b c : Message} → IsCopy a b → IsCopy b c → IsCopy a c
IsCopy-trans h k = record {
  same_id = k.same_id ∙ h.same_id;
  same_correlation = k.same_correlation ∙ h.same_correlation;
  same_body = k.same_body ∙ h.same_body;
}

module _ (m : Message) where
  HasCopy-front : (xs ys : List Message) → HasCopy m xs → HasCopy m (xs ++ ys)
  HasCopy-front (x ∷ xs) ys (inl h) = inl h
  HasCopy-front (x ∷ xs) ys (inr h) = inr (HasCopy-front xs ys h)
  HasCopy-front [] ys h = absurd h

  HasCopy-back : (xs ys : List Message) → HasCopy m ys → HasCopy m (xs ++ ys)
  HasCopy-back [] ys h = h
  HasCopy-back (x ∷ xs) ys h = inr (HasCopy-back xs ys h)

  HasCopy-Removes :
      {x : Message} {xs ys : List Message}
      → Removes x xs ys
      → HasCopy m xs
      → IsCopy m x ⊎ HasCopy m ys
  HasCopy-Removes here h = h
  HasCopy-Removes (there r) (inl h) = inr (inl h)
  HasCopy-Removes (there r) (inr h) = elim (HasCopy-Removes r h) [
    | inl p ↦ inl p
    | inr q ↦ inr (inr q)
  ]

  -- A copy of a copy is a copy.
  HasCopy-trans : (c : Message) (xs : List Message) → IsCopy m c → HasCopy c xs → HasCopy m xs
  HasCopy-trans c (x ∷ xs) e (inl h) = inl (IsCopy-trans e h)
  HasCopy-trans c (x ∷ xs) e (inr h) = inr (HasCopy-trans c xs e h)
  HasCopy-trans c [] e h = absurd h

has_ack-IsOpen : (es : List Effect) → IsOpen es → has_ack es ≡ false
has_ack-IsOpen [] h = refl
has_ack-IsOpen (retried c ∷ es) h = has_ack-IsOpen es h
has_ack-IsOpen (dead_lettered c ∷ es) h = has_ack-IsOpen es h
has_ack-IsOpen (handled v ∷ es) h = has_ack-IsOpen es h
has_ack-IsOpen (marked i ∷ es) h = has_ack-IsOpen es h
has_ack-IsOpen (known i ∷ es) h = has_ack-IsOpen es h
has_ack-IsOpen (acked ∷ es) h = absurd h
has_ack-IsOpen (rejected ∷ es) h = absurd h

module _ {W : Type 0} (broker : Broker W) (m : Message) where
  -- What covers a message is found in the queues.
  abbrev Found : List Effect → Type 0
  Found es = (completes es ≡ true) ⊎ (HasCopy m (to_retry es) ⊎ HasCopy m (to_dead es))

  Covered-Found : (es : List Effect) → Covered broker m es → Found es
  Covered-Found (handled v ∷ es) h = inl refl
  Covered-Found (known i ∷ es) h = inl refl
  Covered-Found (retried c ∷ es) (inl h) = inr (inl (inl h))
  Covered-Found (retried c ∷ es) (inr h) = elim (Covered-Found es h) [
    | inl done ↦ inl done
    | inr (inl r) ↦ inr (inl (inr r))
    | inr (inr d) ↦ inr (inr d)
  ]
  Covered-Found (dead_lettered c ∷ es) (inl h) = inr (inr (inl h))
  Covered-Found (dead_lettered c ∷ es) (inr h) = elim (Covered-Found es h) [
    | inl done ↦ inl done
    | inr (inl r) ↦ inr (inl r)
    | inr (inr d) ↦ inr (inr (inr d))
  ]
  Covered-Found (marked i ∷ es) (inr h) = Covered-Found es h
  Covered-Found (acked ∷ es) (inr h) = Covered-Found es h
  Covered-Found (rejected ∷ es) (inr h) = Covered-Found es h
  Covered-Found (marked i ∷ es) (inl h) = absurd h
  Covered-Found (acked ∷ es) (inl h) = absurd h
  Covered-Found (rejected ∷ es) (inl h) = absurd h
  Covered-Found [] h = absurd h

module _ {W : Type 0} (broker : Broker W) (m : Message) where
  -- The delivery of a copy `c` of `m`, which ended with the history of `s`.
  own-Present :
      (n : Net W) (c : Message) (rest : List Message) (r : Result String (Unit {0})) (s : Session W)
      → IsCopy m c
      → Settled broker c r s.history
      → Present m (deliver_to n c rest s)
  own-Present n c rest r s e (requeued es x h o) =
      in_waiting (rw (h, has_ack, has_ack-IsOpen es o) (inl e))
  own-Present n c rest r s e (left_open y x o) =
      in_waiting (rw (has_ack-IsOpen s.history o) (inl e))
  own-Present n c rest r s e (acknowledged es x h o covered) =
      elim (Covered-Found broker c es covered) [
        | inl done ↦ in_finished (rw (h, completes, done) (inl e))
        | inr (inl again) ↦ in_retrying (
            rw (h, to_retry)
              (HasCopy-front m (to_retry es) n.retrying (HasCopy-trans m c (to_retry es) e again)))
        | inr (inr lost) ↦ in_dead (
            rw (h, to_dead)
              (HasCopy-front m (to_dead es) n.dead (HasCopy-trans m c (to_dead es) e lost)))
      ]

  kept_waiting :
      (b : Bool) (c : Message) (rest : List Message)
      → HasCopy m rest
      → HasCopy m (if b then rest else c ∷ rest)
  kept_waiting true c rest h = h
  kept_waiting false c rest h = inr h

  kept_finished :
      (b : Bool) (c : Message) (done : List Message)
      → HasCopy m done
      → HasCopy m (if b then c ∷ done else done)
  kept_finished true c done h = inr h
  kept_finished false c done h = h

  consumed-Present :
      (n : Net W) (c : Message) (rest : List Message)
      → Removes c n.waiting rest
      → Present m n
      → Present m (consumed broker n c rest)
  consumed-Present n c rest r (in_waiting h) = elim (HasCopy-Removes m r h) [
    | inl own ↦ own-Present n c rest _ _ own (process_message-Settled broker c n.world)
    | inr other ↦ in_waiting (kept_waiting _ c rest other)
  ]
  consumed-Present n c rest r (in_retrying h) = in_retrying (HasCopy-back m _ n.retrying h)
  consumed-Present n c rest r (in_dead h) = in_dead (HasCopy-back m _ n.dead h)
  consumed-Present n c rest r (in_finished h) = in_finished (kept_finished _ c n.finished h)

  Step-Present : {n o : Net W} → Step broker n o → Present m n → Present m o
  Step-Present (deliver c rest r) h = consumed-Present _ c rest r h
  Step-Present (publish i j t b) (in_waiting h) = in_waiting (inr h)
  Step-Present (publish i j t b) (in_retrying h) = in_retrying h
  Step-Present (publish i j t b) (in_dead h) = in_dead h
  Step-Present (publish i j t b) (in_finished h) = in_finished h
  Step-Present (expire c rest r) (in_waiting h) = in_waiting (inr h)
  Step-Present (expire c rest r) (in_retrying h) = elim (HasCopy-Removes m r h) [
    | inl own ↦ in_waiting (inl own)
    | inr other ↦ in_retrying other
  ]
  Step-Present (expire c rest r) (in_dead h) = in_dead h
  Step-Present (expire c rest r) (in_finished h) = in_finished h
  Step-Present (pass w) (in_waiting h) = in_waiting h
  Step-Present (pass w) (in_retrying h) = in_retrying h
  Step-Present (pass w) (in_dead h) = in_dead h
  Step-Present (pass w) (in_finished h) = in_finished h

  -- No message is lost: over any sequence of publications, deliveries and expirations, with any
  -- behaviour of the broker's operations, the handler and the database, a message that is once in the
  -- queues has a copy with its identifiers and its body in the main, the retry or the dead letter
  -- queue, or its event was processed.
  pub Reach-Present : {n o : Net W} → Reach broker n o → Present m n → Present m o
  Reach-Present start h = h
  Reach-Present (next r s) h = Step-Present s (Reach-Present r h)
