-- ===== src/Chain/Sends.antt =====
-- `GasStrategy` and `send` of the contract client.
use big_x.Base.{ℕ, ◌+◌, ◌*◌, ◌/◌, String, Option, none, some, List, ◌∷◌, ◌==◌, if◌then◌else◌}
use big_x.Base.Exec.{Result, ok, err, Exec, pure, raise, ◌>>=◌}
use big_x.Risk.Gas.{percentile_for, last, first_rewards, priority_fee}
use big_x.Chain.Web3.{Fault, other_error, Receipt, Fields, Web3}
use big_x.Chain.Loop.{attempt_loop}
use big_x.Chain.Client.{
  ClientOf, Config, AttemptError, provider_unavailable, transaction_reverted, raised, ClientError,
  passed, contract_write, writing, on_node, get_provider_and_contract, wrap,
}
use big_x.Chain.Nonces.{get_and_increment}

pub record GasEstimate : Type 0 where
  pub max_fee_per_gas : ℕ
  pub max_priority_fee_per_gas : ℕ
  pub gas_limit : ℕ

-- What `_send_once` returns.
pub record Sent : Type 0 where
  pub tx_hash : String
  pub gas_used : ℕ
  pub block_number : ℕ

-- `int(estimate * 1.2)`, exact as long as the estimate is below 2^49
abbrev pub with_headroom : Result Fault ℕ → ℕ → ℕ
with_headroom (ok gas) fallback = gas * 6 / 5
with_headroom (err e) fallback = fallback

-- `gas_limit or self.default_gas_limit`
abbrev pub or_default : Option ℕ → ℕ → ℕ
or_default none default = default
or_default (some n) default = if n == 0 then default else n

module _ {W : Type 0} (node : Web3 W) where
  abbrev pub estimate_of : ℕ → Option ℕ → Option ℕ → Exec AttemptError (ClientOf node) GasEstimate
  estimate_of gas_limit (some base) (some priority) = pure (record {
    max_fee_per_gas = base * 2 + priority;
    max_priority_fee_per_gas = priority;
    gas_limit = gas_limit;
  })
  estimate_of gas_limit _ _ = raise (raised (other_error "list index out of range"))

  -- `GasStrategy.estimate`: the gas estimate may fail, the fee history may not.
  unfoldable pub estimate :
      node.Provider
      → node.Bound
      → String
      → ℕ
      → String
      → Exec AttemptError (ClientOf node) GasEstimate
  estimate w3 bound from_address fallback urgency c =
      (do
        history ← on_node raised (node.fee_history w3 20 (percentile_for urgency))
        estimate_of (with_headroom (node.estimate_gas bound from_address c.world).0 fallback)
            (last history.base_fee_per_gas) (priority_fee (first_rewards history.reward)))
        (record c { world = (node.estimate_gas bound from_address c.world).1 })

abbrev pub fields_of : Config → ℕ → ℕ → GasEstimate → Fields
fields_of config value nonce e = record {
  from_address = config.signer;
  value = value;
  nonce = nonce;
  gas = e.gas_limit;
  max_fee_per_gas = e.max_fee_per_gas;
  max_priority_fee_per_gas = e.max_priority_fee_per_gas;
}

module _ {W : Type 0} (node : Web3 W) where
  -- `receipt.status != 1`
  abbrev pub settled : String → Receipt → Exec AttemptError (ClientOf node) Sent
  settled tx_hash receipt =
      if receipt.status == 1
      then pure (record {
        tx_hash = tx_hash;
        gas_used = receipt.gas_used;
        block_number = receipt.block_number;
      })
      else raise (transaction_reverted tx_hash)

  -- `send_raw_transaction`, written into the journal
  unfoldable pub broadcast :
      String
      → List node.Value
      → node.Provider
      → node.Transaction
      → Fields
      → Exec AttemptError (ClientOf node) String
  broadcast function_name args w3 signed fields c = (
    wrap raised (node.send_raw_transaction w3 signed c.world).0,
    record c {
      world = (node.send_raw_transaction w3 signed c.world).1;
      journal =
          record {
            function_name = function_name;
            args = args;
            fields = fields;
            answer = (node.send_raw_transaction w3 signed c.world).0;
          }
          ∷ c.journal;
    },
  )

-- `except TransactionRevertedError` and `except ProviderUnavailableError` end the loop.
abbrev pub ends_send : AttemptError → Option ClientError
ends_send (transaction_reverted h) = some (passed (transaction_reverted h))
ends_send provider_unavailable = some (passed provider_unavailable)
ends_send _ = none

module _ {W : Type 0} (node : Web3 W) (config : Config) where
  module _ (function_name : String) (args : List node.Value) (value : ℕ)
      (gas_limit : Option ℕ) where
    -- `_send_once`
    unfoldable pub send_once : Exec AttemptError (ClientOf node) Sent
    send_once = do
      found ← get_provider_and_contract node config
      bound ← on_node raised (node.bind found.1 function_name args)
      nonce ← get_and_increment node found.0 config.signer
      e ←
          estimate node found.0 bound config.signer (or_default gas_limit config.default_gas_limit)
            "standard"
      let fields = fields_of config value nonce e
      tx ← on_node raised (node.build_transaction bound fields)
      signed ← on_node raised (node.sign_transaction tx)
      tx_hash ← broadcast node function_name args found.0 signed fields
      receipt ← on_node raised (node.wait_for_receipt found.0 tx_hash)
      settled node tx_hash receipt

    -- `send`
    unfoldable pub send : Exec ClientError (ClientOf node) Sent
    send =
        attempt_loop node config send_once ends_send writing contract_write config.max_retries none
