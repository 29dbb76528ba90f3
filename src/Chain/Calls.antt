-- ===== src/Chain/Calls.antt =====
-- `call` in both versions of the client, and `get_event_args`.
use big_x.Base.{String, Option, none, some, List, [], ◌∷◌}
use big_x.Base.Exec.{Exec, pure, raise, ◌>>=◌}
use big_x.Chain.Web3.{logic_error, Web3}
use big_x.Chain.Loop.{attempt_loop}
use big_x.Chain.Client.{
  ClientOf, Config, AttemptError, provider_unavailable, raised, ClientError, passed,
  contract_reverted, contract_call, event_not_found, reading, wrap, on_node,
  get_provider_and_contract,
}

-- The exceptions that end the loop: `except ContractLogicError` and `except
-- ProviderUnavailableError`; every other one is `none`.
abbrev pub ends_read : AttemptError → Option ClientError
ends_read (raised (logic_error message)) = some (contract_reverted message)
ends_read provider_unavailable = some (passed provider_unavailable)
ends_read _ = none

-- In services/shared/src there is no `except ContractLogicError`.
abbrev pub ends_shared_read : AttemptError → Option ClientError
ends_shared_read provider_unavailable = some (passed provider_unavailable)
ends_shared_read _ = none

module _ {W : Type 0} (node : Web3 W) where
  abbrev pub passing :
      {A : Type 0} → Exec AttemptError (ClientOf node) A → Exec ClientError (ClientOf node) A
  passing act c = (wrap passed (act c).0, (act c).1)

  abbrev pub first_event : List node.Value → Exec ClientError (ClientOf node) node.Value
  first_event [] = raise event_not_found
  first_event (args ∷ more) = pure args

module _ {W : Type 0} (node : Web3 W) (config : Config) where
  -- What stands in the `try`: the provider, the function and its `.call()`.
  unfoldable pub read_once : String → List node.Value → Exec AttemptError (ClientOf node) node.Value
  read_once function_name args = do
    found ← get_provider_and_contract node config
    bound ← on_node raised (node.bind found.1 function_name args)
    on_node raised (node.read bound)

  -- `call`
  unfoldable pub call : String → List node.Value → Exec ClientError (ClientOf node) node.Value
  call function_name args =
      attempt_loop node config (read_once function_name args) ends_read reading contract_call
        config.max_retries none

  -- `call` of services/shared/src
  unfoldable pub shared_call :
      String → List node.Value → Exec ClientError (ClientOf node) node.Value
  shared_call function_name args =
      attempt_loop node config (read_once function_name args) ends_shared_read reading contract_call
        config.max_retries none

  -- `get_event_args`
  unfoldable pub get_event_args : String → String → Exec ClientError (ClientOf node) node.Value
  get_event_args event_name tx_hash = do
    found ← passing node (get_provider_and_contract node config)
    receipt ← passing node (on_node raised (node.get_receipt found.0 tx_hash))
    events ← passing node (on_node raised (node.process_receipt found.1 event_name receipt))
    first_event node events
