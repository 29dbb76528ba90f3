-- ===== src/Chain/AttemptsLaws.antt =====
-- Proofs about one attempt of `send`: what it did is what its result says.
use big_x.Base.{◌==◌, ℕ, ◌≡◌, refl, inl, inr, String, Option, List, ◌∷◌, Bool-cases}
use big_x.Base.Exec.{Result, ok, err, ◌>>=◌}
use big_x.Base.Spec.{Spec, Spec-bind}
use big_x.Chain.Web3.{Fault, Web3, Receipt}
use big_x.Chain.Client.{
  ClientOf, Config, AttemptError, provider_unavailable, broken_breaker, transaction_reverted,
  nonce_error, raised, Broadcast, wrap, on_node, get_provider_and_contract,
}
use big_x.Chain.Nonces.{get_and_increment}
use big_x.Chain.Sends.{
  Sent, GasEstimate, estimate, or_default, fields_of, settled, broadcast, send_once,
}
use big_x.Chain.Frame.{IsPlain, Stable, on_node-Spec, get_provider_and_contract-Spec}
use big_x.Chain.Attempts.{Gave, Attempted, early, numbered, gave}
use big_x.Chain.Numbering.{
  Start, Numbered, Start-Stable, Numbered-Stable, get_and_increment-Spec, estimate-Spec,
}

module _ {W : Type 0} (node : Web3 W) (config : Config) (ns : List (String × ℕ))
    (js : List (Broadcast node.Value)) (function_name : String) (args : List node.Value)
    (value : ℕ) where
  abbrev Given : ℕ → Broadcast node.Value → ClientOf node → Type 0
  Given n b c = Gave config ns js function_name args value n b c.nonces c.journal

  -- The outcome of an attempt, as a property of its result and its state.
  abbrev pub AttemptedAt : Result AttemptError Sent → ClientOf node → Type 0
  AttemptedAt r c = Attempted config ns js function_name args value r c.nonces c.journal

  -- The broadcast `b` was answered by the hash `h`.
  abbrev Answered : String → ClientOf node → Type 0
  Answered h c = (n : ℕ) × (b : Broadcast node.Value) × (b.answer ≡ ok h) × Given n b c

  -- After `send_raw_transaction`.
  abbrev Posted : Result AttemptError String → ClientOf node → Type 0
  Posted (ok h) c = Answered h c
  Posted (err e) c = IsPlain e × ((n : ℕ) × (b : Broadcast node.Value) × Given n b c)

  broadcast-Spec :
      (n : ℕ) (w3 : node.Provider) (signed : node.Transaction) (e : GasEstimate)
      → Spec
          (Numbered node config ns js n)
          (broadcast node function_name args w3 signed (fields_of config value n e))
          Posted
  unfolding broadcast
  broadcast-Spec n w3 signed e = record {
    at = λ c h. posted (node.send_raw_transaction w3 signed c.world).0 _ c h;
  }
    where
      entry : Result Fault String → Broadcast node.Value
      entry r = record {
        function_name = function_name;
        args = args;
        fields = fields_of config value n e;
        answer = r;
      }

      given :
          (r : Result Fault String) (w : W) (c : ClientOf node)
          → (Numbered node config ns js) n c
          → Given n (entry r) (record c { world = w; journal = entry r ∷ c.journal })
      given r w c h = record {
        next = h.next;
        nonces = h.nonces;
        journal = rw h.journal refl;
        called = refl;
        given = refl;
        paid = refl;
        signer = refl;
        nonce = refl;
      }

      posted :
          (r : Result Fault String) (w : W) (c : ClientOf node)
          → (Numbered node config ns js) n c
          → Posted (wrap raised r) (record c { world = w; journal = entry r ∷ c.journal })
      posted (ok tx_hash) w c h = (n, entry (ok tx_hash), refl, given (ok tx_hash) w c h)
      posted (err fault) w c h = (tt, (n, entry (err fault), given (err fault) w c h))

  Answered-Stable : (h : String) → Stable (Answered h)
  Answered-Stable h = record {
    world = λ c w a. a;
    circuit = λ c b a. a;
    metrics = λ c m a. a;
    contracts = λ c d a. a;
  }

  settled-Spec :
      (h : String) (receipt : Receipt) → Spec (Answered h) (settled node h receipt) AttemptedAt
  settled-Spec h receipt = record {
    at = λ c a. elim (Bool-cases (receipt.status == 1)) [
      | inl good ↦ rw (good, settled) (gave a.0 a.1 a.2 a.3)
      | inr bad ↦ rw (bad, settled) (gave a.0 a.1 a.2 a.3)
    ];
  }

  -- A plain exception after a broadcast.
  Plainly-gave :
      (e : AttemptError) (n : ℕ) (b : Broadcast node.Value) (c : ClientOf node)
      → IsPlain e
      → Given n b c
      → AttemptedAt (err e) c
  Plainly-gave provider_unavailable n b c p g = gave n b tt g
  Plainly-gave broken_breaker n b c p g = gave n b tt g
  Plainly-gave (nonce_error x) n b c p g = gave n b tt g
  Plainly-gave (raised x) n b c p g = gave n b tt g
  Plainly-gave (transaction_reverted h) n b c p g = absurd p

  receipt-Spec :
      (w3 : node.Provider) (h : String)
      → Spec
          (Answered h)
          (on_node raised (node.wait_for_receipt w3 h) >>= λ receipt. settled node h receipt)
          AttemptedAt
  receipt-Spec w3 h =
      Spec-bind (on_node raised (node.wait_for_receipt w3 h)) _
        (on_node-Spec node (Answered h) (Answered-Stable h) raised _ (λ e. tt)) (settled-Spec h)
        (λ e c a. Plainly-gave e a.1.0 a.1.1 c a.0 a.1.3)

  -- From a nonce on: the transaction is priced, built, signed and broadcast.
  Numbered-Spec :
      (n : ℕ) (found : node.Provider × node.Contract) (bound : node.Bound) (fallback : ℕ)
      → Spec
          (Numbered node config ns js n)
          (do
            e ← estimate node found.0 bound config.signer fallback "standard"
            let fields = fields_of config value n e
            tx ← on_node raised (node.build_transaction bound fields)
            signed ← on_node raised (node.sign_transaction tx)
            tx_hash ← broadcast node function_name args found.0 signed fields
            receipt ← on_node raised (node.wait_for_receipt found.0 tx_hash)
            settled node tx_hash receipt)
          AttemptedAt
  Numbered-Spec n found bound fallback =
      Spec-bind (estimate node found.0 bound config.signer fallback "standard") _
        (estimate-Spec node config ns js n found.0 bound fallback "standard")
        (λ e.
          Spec-bind (on_node raised (node.build_transaction bound (fields_of config value n e))) _
            (on_node-Spec node (Numbered node config ns js n) (Numbered-Stable node config ns js n)
              raised _ (λ x. tt))
            (λ tx.
              Spec-bind (on_node raised (node.sign_transaction tx)) _
                (on_node-Spec node (Numbered node config ns js n)
                  (Numbered-Stable node config ns js n) raised _ (λ x. tt))
                (λ signed.
                  Spec-bind
                    (broadcast node function_name args found.0 signed (fields_of config value n e))
                    _ (broadcast-Spec n found.0 signed e) (receipt-Spec found.0)
                    (λ x c a. Plainly-gave x a.1.0 a.1.1 c a.0 a.1.2))
                lost)
            lost)
        lost
    where
      lost :
          (e : AttemptError) (c : ClientOf node)
          → IsPlain e × (Numbered node config ns js) n c
          → AttemptedAt (err e) c
      lost e c h = numbered n e refl h.0 h.1

  pub send_once-Spec :
      (gas_limit : Option ℕ)
      → Spec
          (Start node config ns js)
          (send_once node config function_name args value gas_limit)
          AttemptedAt
  unfolding send_once
  send_once-Spec gas_limit =
      Spec-bind (get_provider_and_contract node config) _
        (get_provider_and_contract-Spec node (Start node config ns js)
          (Start-Stable node config ns js) config)
        (λ found.
          Spec-bind (on_node raised (node.bind found.1 function_name args)) _
            (on_node-Spec node (Start node config ns js) (Start-Stable node config ns js) raised _
              (λ x. tt))
            (λ bound.
              Spec-bind (get_and_increment node found.0 config.signer) _
                (get_and_increment-Spec node config ns js found.0)
                (λ n. Numbered-Spec n found bound (or_default gas_limit config.default_gas_limit))
                lost)
            lost)
        lost
    where
      lost :
          (e : AttemptError) (c : ClientOf node)
          → IsPlain e × (Start node config ns js) c
          → AttemptedAt (err e) c
      lost e c h = early e refl h.0 h.1
