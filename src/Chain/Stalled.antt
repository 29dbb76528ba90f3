-- ===== src/Chain/Stalled.antt =====
-- What `send` does with a node that takes the transactions and then does not give their receipts: a
-- proof that a write is broadcast again for every retry.
use big_x.Base.{ℕ, ◌≡◌, refl, String, true, Option, none, some, List, ◌∷◌}
use big_x.Base.Exec.{Result, ok, err, Exec, ◌>>=◌}
use big_x.Base.Spec.{Spec, Spec-bind}
use big_x.Resilience.Breaker.{CircuitBreaker, closed, allow}
use big_x.Resilience.Cache.{lookup}
use big_x.Risk.Gas.{FeeHistory, percentile_for, last, first_rewards, priority_fee}
use big_x.Chain.Web3.{Fault, Fields, Web3}
use big_x.Chain.Client.{
  ClientOf, Config, AttemptError, raised, nonce_error, Broadcast, wrap, on_node, ask_breaker,
  answered, pick_provider, picked, get_or_create, cached, find_contract, get_provider_and_contract,
}
use big_x.Chain.Nonces.{get_and_increment, next_nonce}
use big_x.Chain.Sends.{
  Sent, estimate, estimate_of, or_default, fields_of, settled, broadcast, send_once,
}

-- Everything works but for the receipt, whatever the state of the world.
pub record Stalls {W : Type 0} (node : Web3 W) : Type 0 where
  pub provided : (w : W) → (p : node.Provider) × ((node.get_provider w).0 ≡ ok p)
  pub made :
      (p : node.Provider) (address : String) (w : W)
      → (k : node.Contract) × ((node.make_contract p address w).0 ≡ ok k)
  pub bound :
      (k : node.Contract) (f : String) (args : List node.Value) (w : W)
      → (b : node.Bound) × ((node.bind k f args w).0 ≡ ok b)
  pub counted :
      (p : node.Provider) (address : String) (w : W)
      → (n : ℕ) × ((node.transaction_count p address w).0 ≡ ok n)
  pub history :
      (p : node.Provider) (blocks percentile : ℕ) (w : W)
      → (h : FeeHistory) × (base : ℕ) × (tip : ℕ) × ((node.fee_history p blocks percentile w).0
          ≡ ok h)
        × (last h.base_fee_per_gas ≡ some base)
        × (priority_fee (first_rewards h.reward) ≡ some tip)
  pub built :
      (b : node.Bound) (fields : Fields) (w : W)
      → (tx : node.Transaction) × ((node.build_transaction b fields w).0 ≡ ok tx)
  pub signed :
      (tx : node.Transaction) (w : W)
      → (raw : node.Transaction) × ((node.sign_transaction tx w).0 ≡ ok raw)
  pub sent :
      (p : node.Provider) (raw : node.Transaction) (w : W)
      → (h : String) × ((node.send_raw_transaction p raw w).0 ≡ ok h)
  pub lost :
      (p : node.Provider) (h : String) (w : W)
      → (fault : Fault) × ((node.wait_for_receipt p h w).0 ≡ err fault)

-- A value comes back, with `P`.
abbrev Works : {S A : Type 0} → (S → Type 0) → Result AttemptError A → S → Type 0
Works P (ok a) c = P c
Works P (err e) c = ⊥

module _ {W : Type 0} (node : Web3 W) (b : CircuitBreaker) (shut : b.state ≡ closed)
    (js : List (Broadcast node.Value)) where
  -- The breaker is `b`, and the journal `js`.
  abbrev Before : ClientOf node → Type 0
  Before c = (c.circuit ≡ b) × (c.journal ≡ js)

  on_node-Works :
      {A : Type 0} (f : Fault → AttemptError) (act : Exec Fault W A)
      → ((w : W) → (a : A) × ((act w).0 ≡ ok a))
      → Spec Before (on_node f act) (Works Before)
  on_node-Works f act works = record { at = λ c h. rw ((works c.world).1, wrap) h }

  Works-bind :
      {A B : Type 0} {Q : Result AttemptError B → ClientOf node → Type 0}
      (m : Exec AttemptError (ClientOf node) A) (f : A → Exec AttemptError (ClientOf node) B)
      → Spec Before m (Works Before)
      → ((a : A) → Spec Before (f a) Q)
      → Spec Before (m >>= f) Q
  Works-bind {Q = Q} m f h k = Spec-bind m f h k (λ e c bad. absurd bad)

  allowed : (now : ℕ) (d : CircuitBreaker) → d ≡ b → allow now d ≡ some (true, d)
  unfolding allow
  allowed now d e = rw (e, shut) refl

  ask_breaker-Works : Spec Before (ask_breaker node) (Works Before)
  unfolding ask_breaker
  ask_breaker-Works = record {
    at = λ c h. rw (allowed (node.now c.world) c.circuit h.0, answered) h;
  }

  module _ (s : Stalls node) where
    pick_provider-Works : Spec Before (pick_provider node) (Works Before)
    unfolding pick_provider
    pick_provider-Works = record { at = λ c h. rw ((s.provided c.world).1, picked) h }

    get_or_create-Works :
        (p : node.Provider) (address : String)
        → Spec Before (get_or_create node p address) (Works Before)
    unfolding get_or_create
    get_or_create-Works p address = record {
      at = λ c h. (stored (find_contract _ _ c.contracts)).at c h;
    }
      where
        stored : (o : Option node.Contract) → Spec Before (cached node p address o) (Works Before)
        stored (some contract) = record { at = λ c h. h }
        stored none =
            Works-bind (on_node raised (node.make_contract p address)) _
              (on_node-Works raised _ (s.made p address)) (λ contract. record { at = λ c h. h })

    get_and_increment-Works :
        (p : node.Provider) (address : String)
        → Spec Before (get_and_increment node p address) (Works Before)
    unfolding get_and_increment
    get_and_increment-Works p address = record {
      at = λ c h. (taken (lookup address c.nonces)).at c h;
    }
      where
        taken : (o : Option ℕ) → Spec Before (next_nonce node p address o) (Works Before)
        taken (some n) = record { at = λ c h. h }
        taken none =
            Works-bind (on_node nonce_error (node.transaction_count p address)) _
              (on_node-Works nonce_error _ (s.counted p address)) (λ n. record { at = λ c h. h })

    estimate-Works :
        (p : node.Provider) (bound : node.Bound) (from_address : String) (fallback : ℕ)
        (urgency : String)
        → Spec Before (estimate node p bound from_address fallback urgency) (Works Before)
    unfolding estimate
    estimate-Works p bound from_address fallback urgency = record {
      at = λ c h.
          let q =
            s.history p 20 (percentile_for urgency)
              (node.estimate_gas bound from_address c.world).1 in
          rw (q.3, wrap, q.4, q.5, estimate_of) h;
    }

    -- After a broadcast.
    abbrev pub After : ClientOf node → Type 0
    After c = (c.circuit ≡ b) × ((sent : Broadcast node.Value) × (c.journal ≡ sent ∷ js))

    abbrev Posted : {A : Type 0} → Result AttemptError A → ClientOf node → Type 0
    Posted (ok a) c = After c
    Posted (err e) c = ⊥

    -- The attempt broadcast, and then raised what the node raised for the receipt.
    abbrev pub Lost : Result AttemptError Sent → ClientOf node → Type 0
    Lost r c = ((fault : Fault) × (r ≡ err (raised fault))) × After c

    broadcast-Posted :
        (f : String) (args : List node.Value) (p : node.Provider) (raw : node.Transaction)
        (fields : Fields)
        → Spec Before (broadcast node f args p raw fields) Posted
    unfolding broadcast
    broadcast-Posted f args p raw fields = record {
      at = λ c h. rw ((s.sent p raw c.world).1, wrap, h.1) (h.0, (_, refl));
    }

    receipt-Lost :
        (p : node.Provider) (h : String)
        → Spec After
            (on_node raised (node.wait_for_receipt p h) >>= λ receipt. settled node h receipt)
            Lost
    receipt-Lost p h = record { at = λ c a. rw ((s.lost p h c.world).1, wrap) ((_, refl), a) }

    pub send_once-Lost :
        (config : Config) (f : String) (args : List node.Value) (value : ℕ) (gas_limit : Option ℕ)
        → Spec Before (send_once node config f args value gas_limit) Lost
    unfolding send_once get_provider_and_contract
    send_once-Lost config f args value gas_limit =
        Works-bind (get_provider_and_contract node config) _
          (Works-bind (ask_breaker node) _ ask_breaker-Works (λ _.
            Works-bind (pick_provider node) _ pick_provider-Works (λ p.
              Works-bind (get_or_create node p config.address) _
                (get_or_create-Works p config.address) (λ k. record { at = λ c h. h }))))
          (λ found.
            Works-bind (on_node raised (node.bind found.1 f args)) _
              (on_node-Works raised _ (s.bound found.1 f args))
              (λ bound.
                Works-bind (get_and_increment node found.0 config.signer) _
                  (get_and_increment-Works found.0 config.signer)
                  (λ n.
                    Works-bind
                      (estimate node found.0 bound config.signer
                        (or_default gas_limit config.default_gas_limit) "standard")
                      _ (estimate-Works found.0 bound config.signer _ "standard")
                      (λ e.
                        Works-bind
                          (on_node raised
                            (node.build_transaction bound (fields_of config value n e)))
                          _ (on_node-Works raised _ (s.built bound (fields_of config value n e)))
                          (λ tx.
                            Works-bind (on_node raised (node.sign_transaction tx)) _
                              (on_node-Works raised _ (s.signed tx))
                              (λ raw.
                                Spec-bind
                                  (broadcast node f args found.0 raw (fields_of config value n e)) _
                                  (broadcast-Posted f args found.0 raw (fields_of config value n e))
                                  (receipt-Lost found.0) (λ x c bad. absurd bad)))))))
