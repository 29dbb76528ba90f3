-- ===== src/Chain/CallLaws.antt =====
-- Proofs about `call`: the two versions of the client agree where nothing reverts, and a read leaves
-- the nonces and the broadcasts alone.
use big_x.Base.{◌≡◌, ◌≢◌, refl, sym, String, Option, none, some, Bool, true, false, List}
use big_x.Base.Exec.{Result, ok, err, Exec, ◌>>=◌}
use big_x.Base.Spec.{Spec, Spec-bind}
use big_x.Resilience.Breaker.{CircuitBreaker, allow, closed, record_success}
use big_x.Chain.Web3.{Fault, logic_error, other_error, Web3}
use big_x.Chain.Client.{
  ClientOf, Config, AttemptError, ClientError, passed, provider_unavailable, broken_breaker,
  transaction_reverted, nonce_error, contract_reverted, contract_call, reading, raised, on_node,
  wrap, get_provider_and_contract, ask_breaker, answered, pick_provider, picked, get_or_create,
  cached, find_contract,
}
use big_x.Chain.Calls.{read_once, call, shared_call, ends_read, ends_shared_read}
use big_x.Chain.Frame.{Stable, read_once-keeps}
use big_x.Chain.LoopLaws.{attempt_loop-keeps, Inductive, attempt_loop-Inductive, attempt_loop_cong}

-- An exception other than a `ContractLogicError`.
abbrev pub IsOther : AttemptError → Type 0
IsOther (raised (logic_error m)) = ⊥
IsOther _ = Unit

ends-agree : (e : AttemptError) → IsOther e → ends_read e ≡ ends_shared_read e
ends-agree provider_unavailable h = refl
ends-agree broken_breaker h = refl
ends-agree (transaction_reverted m) h = refl
ends-agree (nonce_error f) h = refl
ends-agree (raised (logic_error m)) h = absurd h
ends-agree (raised (other_error m)) h = refl

-- A node that reverts nothing: no `ContractLogicError` while a contract is made, bound or read.
pub record NeverReverts {W : Type 0} (node : Web3 W) : Type 0 where
  pub made :
      (w3 : node.Provider) (address m : String) (w : W)
      → (node.make_contract w3 address w).0 ≢ err (logic_error m)
  pub bound :
      (contract : node.Contract) (f : String) (args : List node.Value) (m : String) (w : W)
      → (node.bind contract f args w).0 ≢ err (logic_error m)
  pub read : (b : node.Bound) (m : String) (w : W) → (node.read b w).0 ≢ err (logic_error m)

abbrev Other : {A : Type 0} → Result AttemptError A → Type 0
Other (ok a) = Unit
Other (err e) = IsOther e

wrap-Other :
    {A : Type 0} (r : Result Fault A)
    → ((m : String) → r ≢ err (logic_error m))
    → Other (wrap raised r)
wrap-Other (ok a) never = tt
wrap-Other (err (logic_error m)) never = absurd (never m refl)
wrap-Other (err (other_error m)) never = tt

module _ {W : Type 0} (node : Web3 W) (config : Config) where
  abbrev Any : ClientOf node → Type 0
  Any c = Unit

  -- An action that raises no `ContractLogicError`.
  abbrev Tame : {A : Type 0} → Exec AttemptError (ClientOf node) A → Type 0
  Tame act = Spec Any act (λ r c. Other r)

  Tame-bind :
      {A B : Type 0} (m : Exec AttemptError (ClientOf node) A)
      (f : A → Exec AttemptError (ClientOf node) B)
      → Tame m
      → ((a : A) → Tame (f a))
      → Tame (m >>= f)
  Tame-bind m f h k =
      Spec-bind m f h (λ a. record { at = λ c _. (k a).at c tt }) (λ e c other. other)

  on_node-Tame :
      {A : Type 0} (act : Exec Fault W A)
      → ((m : String) (w : W) → (act w).0 ≢ err (logic_error m))
      → Tame (on_node raised act)
  on_node-Tame act never = record { at = λ c h. wrap-Other (act c.world).0 (λ m. never m c.world) }

  ask_breaker-Tame : Tame (ask_breaker node)
  unfolding ask_breaker
  ask_breaker-Tame = record { at = λ c h. asked (allow (node.now c.world) c.circuit) c }
    where
      asked : (o : Option (Bool × CircuitBreaker)) (c : ClientOf node) → Other (answered node o c).0
      asked none c = tt
      asked (some (true, b)) c = tt
      asked (some (false, b)) c = tt

  pick_provider-Tame : Tame (pick_provider node)
  unfolding pick_provider
  pick_provider-Tame = record { at = λ c h. found (node.get_provider c.world).0 _ }
    where
      found : (r : Result Fault node.Provider) (c : ClientOf node) → Other (picked node r c).0
      found (ok w3) c = tt
      found (err e) c = tt

  module _ (never : NeverReverts node) where
    get_or_create-Tame : (w3 : node.Provider) → Tame (get_or_create node w3 config.address)
    unfolding get_or_create
    get_or_create-Tame w3 = record { at = λ c h. (stored (find_contract _ _ c.contracts)).at c h }
      where
        stored : (o : Option node.Contract) → Tame (cached node w3 config.address o)
        stored (some contract) = record { at = λ c h. tt }
        stored none =
            Tame-bind (on_node raised (node.make_contract w3 config.address)) _
              (on_node-Tame _ (never.made w3 config.address))
              (λ contract. record { at = λ c h. tt })

    read_once-Tame : (f : String) (args : List node.Value) → Tame (read_once node config f args)
    unfolding read_once get_provider_and_contract
    read_once-Tame f args =
        Tame-bind (get_provider_and_contract node config) _
          (Tame-bind (ask_breaker node) _ ask_breaker-Tame (λ _.
            Tame-bind (pick_provider node) _ pick_provider-Tame (λ w3.
              Tame-bind (get_or_create node w3 config.address) _ (get_or_create-Tame w3)
                (λ contract. record { at = λ c h. tt }))))
          (λ found.
            Tame-bind (on_node raised (node.bind found.1 f args)) _
              (on_node-Tame _ (never.bound found.1 f args))
              (λ b. on_node-Tame (node.read b) (never.read b)))

    -- With a node that reverts nothing, the `call` of services/shared/src, which does not know
    -- `ContractLogicError`, and the newer one give the same result and leave the same state.
    pub shared_call-call :
        (f : String) (args : List node.Value) (c : ClientOf node)
        → shared_call node config f args c ≡ call node config f args c
    unfolding shared_call call
    shared_call-call f args c = sym (
        attempt_loop_cong node config (read_once node config f args) ends_read ends_shared_read
          reading contract_call (λ d e lost. ends-agree e (tame d e lost)) config.max_retries none
          c)
      where
        tame :
            (d : ClientOf node) (e : AttemptError)
            → (read_once node config f args d).0 ≡ err e
            → IsOther e
        tame d e lost = rw lost at ((read_once-Tame f args).at d tt)

  -- The state that a result of `call` comes with: a value closes the breaker, and nothing else is
  -- raised than a revert, an unavailable provider and a failed read.
  abbrev pub Answers : Result ClientError node.Value → ClientOf node → Type 0
  Answers (ok value) c = (c.circuit.state ≡ closed) × (c.circuit.failures ≡ 0)
  Answers (err (contract_reverted m)) c = Unit
  Answers (err (passed provider_unavailable)) c = Unit
  Answers (err (contract_call last)) c = Unit
  Answers (err e) c = ⊥

  ended-Answers :
      (e : AttemptError) (error : ClientError) (c : ClientOf node)
      → ends_read e ≡ some error
      → Answers (err error) c
  ended-Answers (raised (logic_error m)) error c h =
      let same : error ≡ contract_reverted m = cc in rw same tt
  ended-Answers provider_unavailable error c h =
      let same : error ≡ passed provider_unavailable = cc in rw same tt
  ended-Answers (raised (other_error m)) error c h = cc
  ended-Answers broken_breaker error c h = cc
  ended-Answers (nonce_error x) error c h = cc
  ended-Answers (transaction_reverted m) error c h = cc

  abbrev Quiet : ClientOf node → ClientOf node → Type 0
  Quiet c d = (d.nonces ≡ c.nonces) × (d.journal ≡ c.journal)

  Quiet-Stable : (c : ClientOf node) → Stable (Quiet c)
  Quiet-Stable c = record {
    world = λ d w h. h;
    circuit = λ d b h. h;
    metrics = λ d m h. h;
    contracts = λ d e h. h;
  }

  module _ (f : String) (args : List node.Value) where
    Answers-Inductive :
        Inductive node config
          (read_once node config f args)
          ends_read
          reading
          contract_call
          (λ left d r d'. Answers r d')
    unfolding record_success
    Answers-Inductive = record {
      spent = λ last d. tt;
      won = λ left d a e. (refl, refl);
      ended = λ left d e error x y. ended-Answers e error _ y;
      again = λ left d e r d' x y h. h;
    }

    -- A `call` raises a revert, an unavailable provider or a failed read and nothing else; after a
    -- value the breaker is closed and has no failures; and on every way out the nonces and the
    -- broadcasts are what they were.
    pub call-Answers :
        (c : ClientOf node)
        → Answers (call node config f args c).0 (call node config f args c).1
          × Quiet c (call node config f args c).1
    unfolding call
    call-Answers c = (
      attempt_loop-Inductive node config (read_once node config f args) ends_read reading
          contract_call (λ left d r d'. Answers r d') Answers-Inductive config.max_retries none c,
      attempt_loop-keeps node config (read_once node config f args) ends_read reading contract_call
          (Quiet c) (Quiet-Stable c) (read_once-keeps node (Quiet c) (Quiet-Stable c) config f args)
          config.max_retries none c (refl, refl),
    )
