-- ===== src/Chain/Resent.antt =====
-- A proof that `send` broadcasts a write again for every retry when the receipts do not come.
use big_x.Base.{
  ℕ, suc, ◌+◌, ◌-◌, ◌<◌, ◌≤◌, ◌≡◌, refl, ◌∙◌, ap, String, Option, none, some, List, ◌∷◌, arith,
  length, ltb, Bool-cases, inl, inr,
}
use big_x.Base.Exec.{Result, err, Exec}
use big_x.Resilience.Breaker.{CircuitBreaker, closed, record_failure}
use big_x.Chain.Web3.{Web3}
use big_x.Chain.Client.{
  ClientOf, Config, AttemptError, raised, ClientError, contract_write, writing, pause_after,
}
use big_x.Chain.Loop.{paused}
use big_x.Chain.Sends.{Sent, send_once, ends_send, send}
use big_x.Chain.LoopLaws.{Inductive, attempt_loop-Inductive, after_pause}
use big_x.Chain.Stalled.{Stalls, Lost, send_once-Lost}

-- Below the threshold a failure leaves a closed breaker closed.
record_failure-closed :
    (now : ℕ) (b : CircuitBreaker)
    → b.state ≡ closed
    → b.failures + 1 < b.failure_threshold
    → (record_failure now b).state ≡ closed
unfolding record_failure
record_failure-closed now b shut h = rw shut (ground arith)

record_failure-counts :
    (now : ℕ) (b : CircuitBreaker)
    → ((record_failure now b).failures ≡ b.failures + 1)
      × ((record_failure now b).failure_threshold ≡ b.failure_threshold)
unfolding record_failure
record_failure-counts now b = ground arith

longer :
    {V : Type 0} (k : ℕ) (js ks : List V) (x : V) → ks ≡ x ∷ js → k + length ks ≡ suc k + length js
longer k js ks x e = rw e (omega arith)

module _ {W : Type 0} (node : Web3 W) (config : Config) (f : String) (args : List node.Value)
    (value : ℕ) (gas_limit : Option ℕ) (s : Stalls node) where
  abbrev once : Exec AttemptError (ClientOf node) Sent
  once = send_once node config f args value gas_limit

  abbrev rest : ℕ → ClientOf node → ClientOf node
  rest = after_pause node config once ends_send writing contract_write

  -- A closed breaker with room for `left` more failures.
  record HasRoom (left : ℕ) (b : CircuitBreaker) : Type 0 where
    shut : 0 < left → b.state ≡ closed
    room : b.failures + left ≤ b.failure_threshold

  -- From a breaker with room, a write that failed after `left` further broadcasts.
  abbrev Resends : ℕ → ClientOf node → Result ClientError Sent → ClientOf node → Type 0
  Resends left c r c' =
      HasRoom left c.circuit
      → ((last : Option AttemptError) × (r ≡ err (contract_write last)))
        × (length c'.journal ≡ left + length c.journal)

  lost :
      (c : ClientOf node) (shut : c.circuit.state ≡ closed)
      → Lost node c.circuit shut c.journal s (once c).0 (once c).1
  lost c shut =
      (send_once-Lost node c.circuit shut c.journal s config f args value gas_limit).at c
        (refl, refl)

  rest_lem :
      (left : ℕ) (d : ClientOf node)
      → ((rest left d).circuit ≡ record_failure (node.now d.world) d.circuit)
        × ((rest left d).journal ≡ d.journal)
  rest_lem left d = elim (Bool-cases (ltb (config.max_retries - left) config.max_retries)) [
    | inl sleeps ↦ rw (sleeps, paused, pause_after) (refl, refl)
    | inr stays ↦ rw (stays, paused, pause_after) (refl, refl)
  ]

  HasRoom-next :
      (left now : ℕ) (b d : CircuitBreaker)
      → d ≡ record_failure now b
      → HasRoom (suc left) b
      → HasRoom left d
  HasRoom-next left now b d e h = rw e (record {
    shut = λ some_left.
        record_failure-closed now b (h.shut (omega arith)) (omega (arith, h.room, some_left));
    room = omega (arith, h.room, (record_failure-counts now b).0, (record_failure-counts now b).1);
  })

  resends : Inductive node config once ends_send writing contract_write Resends
  resends = record {
    spent = λ last c h. ((last, refl), omega arith);
    won = λ left c sent e h. let l = lost c (h.shut (omega arith)) in cc;
    ended = λ left c e error x y h.
        let l = lost c (h.shut (omega arith)) in
        let same : e ≡ raised l.0.0 = cc in let goes_on : none ≡ some error = rw same at y in cc;
    again = λ left c e r c' x y h room.
        let l = lost c (room.shut (omega arith)) in
        let d = (once c).1 in
        let now = node.now d.world in
        let q = h (
          HasRoom-next left now c.circuit _ ((rest_lem left d).0 ∙ ap (record_failure now) l.1.0)
            room) in
        (q.0, q.1 ∙ longer left c.journal _ l.1.1.0 ((rest_lem left d).1 ∙ l.1.1.1));
  }

  -- With a node that takes every transaction and gives no receipt, and a closed breaker with room for
  -- the failures, `send` broadcasts `max_retries` transactions, and then raises that the write
  -- failed.
  pub send-Resends :
      (c : ClientOf node)
      → c.circuit.state ≡ closed
      → c.circuit.failures + config.max_retries ≤ c.circuit.failure_threshold
      → ((last : Option AttemptError) × ((send node config f args value gas_limit c).0
            ≡ err (contract_write last)))
        × (length (send node config f args value gas_limit c).1.journal
            ≡ config.max_retries + length c.journal)
  unfolding send
  send-Resends c shut room =
      attempt_loop-Inductive node config once ends_send writing contract_write Resends resends
        config.max_retries none c (record { shut = λ _. shut; room = room })
