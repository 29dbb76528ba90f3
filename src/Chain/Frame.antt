-- ===== src/Chain/Frame.antt =====
-- What the steps of the client before a nonce is taken keep: everything that does not depend on the
-- world, the breaker, the metrics and the cache of contracts.
use big_x.Base.{ℕ, Bool, true, false, inl, inr, String, Option, none, some, List}
use big_x.Base.Exec.{Result, ok, err, Exec, Result-cases}
use big_x.Chain.Calls.{read_once}
use big_x.Base.Spec.{Spec, Spec-bind, Spec-pure}
use big_x.Resilience.Breaker.{CircuitBreaker, allow}
use big_x.Chain.Web3.{Fault, Web3}
use big_x.Chain.Client.{
  Client, ClientOf, Config, Metric, AttemptError, transaction_reverted, raised, wrap, on_node,
  ask_breaker, answered, pick_provider, picked, get_or_create, cached, find_contract,
  get_provider_and_contract,
}

-- An exception that is not a revert on the chain.
abbrev pub IsPlain : AttemptError → Type 0
IsPlain (transaction_reverted _) = ⊥
IsPlain _ = Unit

-- A state with `P`, beside a value or a plain exception.
abbrev pub Plainly {ℓ} :
    {S : Type ℓ} {A : Type 0} → (S → Type 0) → Result AttemptError A → S → Type 0
Plainly P (ok a) c = P c
Plainly P (err e) c = IsPlain e × P c

-- What does not depend on the world, the breaker, the metrics and the cache of contracts.
pub record Stable {W C V : Type 0} (P : Client W C V → Type 0) : Type 0 where
  pub world : (c : Client W C V) (w : W) → P c → P (record c { world = w })
  pub circuit : (c : Client W C V) (b : CircuitBreaker) → P c → P (record c { circuit = b })
  pub metrics : (c : Client W C V) (m : List Metric) → P c → P (record c { metrics = m })
  pub contracts :
      (c : Client W C V) (d : List ((ℕ × String) × C)) → P c → P (record c { contracts = d })

module _ {W : Type 0} (node : Web3 W) (P : ClientOf node → Type 0) (stable : Stable P) where
  pub on_node-Spec :
      {A : Type 0} (f : Fault → AttemptError) (act : Exec Fault W A)
      → ((e : Fault) → IsPlain (f e))
      → Spec P (on_node f act) (Plainly P)
  on_node-Spec f act plain = record {
    at = λ c h. elim (Result-cases (act c.world).0) [
      | inl (a, returned) ↦ rw (returned, wrap) (stable.world c (act c.world).1 h)
      | inr (e, lost) ↦ rw (lost, wrap) (plain e, stable.world c (act c.world).1 h)
    ];
  }

  ask_breaker-Spec : Spec P (ask_breaker node) (Plainly P)
  unfolding ask_breaker
  ask_breaker-Spec = record { at = λ c h. answer (allow (node.now c.world) c.circuit) c h }
    where
      answer :
          (o : Option (Bool × CircuitBreaker)) (c : ClientOf node)
          → P c
          → Plainly P (answered node o c).0 (answered node o c).1
      answer none c h = (tt, h)
      answer (some (true, b)) c h = stable.circuit c b h
      answer (some (false, b)) c h = (tt, stable.metrics _ _ (stable.circuit c b h))

  pick_provider-Spec : Spec P (pick_provider node) (Plainly P)
  unfolding pick_provider
  pick_provider-Spec = record {
    at = λ c h. elim (Result-cases (node.get_provider c.world).0) [
      | inl (w3, found) ↦ rw (found, picked) (stable.world c _ h)
      | inr (e, lost) ↦ rw (lost, picked) (tt, stable.circuit _ _ (stable.world c _ h))
    ];
  }

  get_or_create-Spec :
      (w3 : node.Provider) (address : String) → Spec P (get_or_create node w3 address) (Plainly P)
  unfolding get_or_create
  get_or_create-Spec w3 address = record {
    at = λ c h. create (find_contract (node.identity w3) address c.contracts) c h;
  }
    where
      store : (o : Option node.Contract) → Spec P (cached node w3 address o) (Plainly P)
      store (some contract) = Spec-pure P (Plainly P) contract (λ c h. h)
      store none =
          Spec-bind (on_node raised (node.make_contract w3 address)) _
            (on_node-Spec raised _ (λ e. tt))
            (λ contract. record { at = λ c h. stable.contracts c _ h }) (λ e c h. h)

      create :
          (o : Option node.Contract) (c : ClientOf node)
          → P c
          → Plainly P (cached node w3 address o c).0 (cached node w3 address o c).1
      create o c h = (store o).at c h

  pub get_provider_and_contract-Spec :
      (config : Config) → Spec P (get_provider_and_contract node config) (Plainly P)
  unfolding get_provider_and_contract
  get_provider_and_contract-Spec config =
      Spec-bind (ask_breaker node) _ ask_breaker-Spec
        (λ _.
          Spec-bind (pick_provider node) _ pick_provider-Spec
            (λ w3.
              Spec-bind (get_or_create node w3 config.address) _
                (get_or_create-Spec w3 config.address)
                (λ contract. Spec-pure P (Plainly P) (w3, contract) (λ c h. h)) (λ e c h. h))
            (λ e c h. h))
        (λ e c h. h)

  pub read_once-Spec :
      (config : Config) (f : String) (args : List node.Value)
      → Spec P (read_once node config f args) (Plainly P)
  unfolding read_once
  read_once-Spec config f args =
      Spec-bind (get_provider_and_contract node config) _ (get_provider_and_contract-Spec config)
        (λ found.
          Spec-bind (on_node raised (node.bind found.1 f args)) _ (on_node-Spec raised _ (λ x. tt))
            (λ bound. on_node-Spec raised (node.read bound) (λ x. tt)) (λ e c h. h))
        (λ e c h. h)

  pub Plainly-state :
      {A : Type 0} (r : Result AttemptError A) (c : ClientOf node) → Plainly P r c → P c
  Plainly-state (ok a) c h = h
  Plainly-state (err e) c h = h.1

  pub read_once-keeps :
      (config : Config) (f : String) (args : List node.Value) (c : ClientOf node)
      → P c
      → P (read_once node config f args c).1
  read_once-keeps config f args c h = Plainly-state _ _ ((read_once-Spec config f args).at c h)
