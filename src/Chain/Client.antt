-- ===== src/Chain/Client.antt =====
-- The state of a contract client, its exceptions, its cache of contracts and
-- `_get_provider_and_contract`.
use big_x.Base.{
  ℕ, ◌*◌, ◌^◌, ◌-◌, String, Bool, true, false, ◌&&◌, Option, none, some, List, [], ◌∷◌, ltb, ◌==◌,
  if◌then◌else◌,
}
use big_x.Base.Exec.{Result, ok, err, Exec, pure, ◌>>=◌, ◌>>◌}
use big_x.Resilience.Breaker.{CircuitBreaker, allow, record_success, record_failure}
use big_x.Chain.Web3.{Fault, Fields, Web3}
use package.text.Mathlib.Text.{◌==◌ as same_text}

-- What an attempt raises; `broken_breaker` is an open breaker without an opening time.
pub data AttemptError : Type 0 where
  provider_unavailable broken_breaker : AttemptError
  transaction_reverted : String → AttemptError
  nonce_error raised : Fault → AttemptError

-- What `call`, `send` and `get_event_args` raise: an attempt's own exception, passed on, or one of
-- these with the last of them.
pub data ClientError : Type 0 where
  passed : AttemptError → ClientError
  contract_reverted : String → ClientError
  contract_call contract_write : Option AttemptError → ClientError
  event_not_found : ClientError

pub data Kind : Type 0 where
  reading writing : Kind

pub data Outcome : Type 0 where
  succeeded reverted failed : Outcome

-- `MetricsCollector`: what was counted, the latest first.
pub data Metric : Type 0 where
  circuit_open : Metric
  counted : Kind → Outcome → Metric

-- A transaction that was handed to `send_raw_transaction`, and what that gave back.
pub record Broadcast (V : Type 0) : Type 0 where
  pub function_name : String
  pub args : List V
  pub fields : Fields
  pub answer : Result Fault String

pub record Config : Type 0 where
  pub signer : String
  pub address : String
  pub default_gas_limit : ℕ
  pub max_retries : ℕ
  pub base_backoff : ℕ

-- The client, with the history of its broadcasts, the latest first, and the world around it.
pub record Client (W Contract V : Type 0) : Type 0 where
  pub circuit : CircuitBreaker
  pub nonces : List (String × ℕ)
  pub contracts : List ((ℕ × String) × Contract)
  pub metrics : List Metric
  pub journal : List (Broadcast V)
  pub world : W

-- The client around a node.
abbrev pub ClientOf : {W : Type 0} → Web3 W → Type 0
ClientOf {W} node = Client W node.Contract node.Value

abbrev pub wrap {ℓ} : {E F A : Type ℓ} → (E → F) → Result E A → Result F A
wrap f (ok a) = ok a
wrap f (err e) = err (f e)

abbrev pub find_contract : {C : Type 0} → ℕ → String → List ((ℕ × String) × C) → Option C
find_contract i address [] = none
find_contract i address (((j, other), c) ∷ cache) =
    let rest = find_contract i address cache in
    if j == i && same_text other address then some c else rest

module _ {W C V : Type 0} where
  abbrev pub count : Metric → Client W C V → Client W C V
  count m c = record c { metrics = m ∷ c.metrics }

  abbrev pub succeed : Client W C V → Client W C V
  succeed c = record c { circuit = record_success c.circuit }

  -- An operation of the node, its exception wrapped.
  abbrev pub on_node :
      {A : Type 0} → (Fault → AttemptError) → Exec Fault W A → Exec AttemptError (Client W C V) A
  on_node f act c = (wrap f (act c.world).0, record c { world = (act c.world).1 })

module _ {W : Type 0} (node : Web3 W) where
  abbrev pub fail : ClientOf node → ClientOf node
  fail c = record c { circuit = record_failure (node.now c.world) c.circuit }

  -- `if attempt < self.max_retries: time.sleep(...)`
  abbrev pub pause_after : Config → ℕ → ClientOf node → ClientOf node
  pause_after config attempt c =
      if ltb attempt config.max_retries
      then record c { world = node.sleep (config.base_backoff * 2 ^ (attempt - 1)) c.world }
      else c

  -- `if not self._circuit.allow(): ...`
  abbrev pub answered :
      Option (Bool × CircuitBreaker) → Exec AttemptError (ClientOf node) (Unit {0})
  answered none c = (err broken_breaker, c)
  answered (some (true, b)) c = (ok tt, record c { circuit = b })
  answered (some (false, b)) c =
      (err provider_unavailable, count circuit_open (record c { circuit = b }))

  unfoldable pub ask_breaker : Exec AttemptError (ClientOf node) (Unit {0})
  ask_breaker c = answered (allow (node.now c.world) c.circuit) c

  -- `w3 = self.rpc.get_provider()`, and what its exception becomes
  abbrev pub picked : Result Fault node.Provider → Exec AttemptError (ClientOf node) node.Provider
  picked (ok w3) c = (ok w3, c)
  picked (err e) c = (err provider_unavailable, fail c)

  unfoldable pub pick_provider : Exec AttemptError (ClientOf node) node.Provider
  pick_provider c =
      picked (node.get_provider c.world).0 (record c { world = (node.get_provider c.world).1 })

  -- `ContractCache.get_or_create`
  abbrev pub cached :
      node.Provider
      → String
      → Option node.Contract
      → Exec AttemptError (ClientOf node) node.Contract
  cached w3 address (some contract) = pure contract
  cached w3 address none = do
    contract ← on_node raised (node.make_contract w3 address)
    λ c. (
      ok contract,
      record c { contracts = ((node.identity w3, address), contract) ∷ c.contracts },
    )

  unfoldable pub get_or_create :
      node.Provider → String → Exec AttemptError (ClientOf node) node.Contract
  get_or_create w3 address c =
      cached w3 address (find_contract (node.identity w3) address c.contracts) c

  unfoldable pub get_provider_and_contract :
      Config → Exec AttemptError (ClientOf node) (node.Provider × node.Contract)
  get_provider_and_contract config = do
    ask_breaker
    w3 ← pick_provider
    contract ← get_or_create w3 config.address
    pure (w3, contract)
