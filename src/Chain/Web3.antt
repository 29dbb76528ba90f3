-- ===== src/Chain/Web3.antt =====
-- What the contract client uses of web3, of the signer and of the provider manager that it is given.
-- The `RpcProviderManager` of services/wallet_service is a stub whose `get_provider` returns None.
use big_x.Base.{ℕ, String, List}
use big_x.Base.Exec.{Exec}
use big_x.Risk.Gas.{FeeHistory}

-- An exception of these libraries: `ContractLogicError`, which is a revert, or any other.
pub data Fault : Type 0 where
  logic_error other_error : String → Fault

pub record Receipt : Type 0 where
  pub status : ℕ
  pub gas_used : ℕ
  pub block_number : ℕ

-- The dictionary that `build_transaction` takes.
pub record Fields : Type 0 where
  pub from_address : String
  pub value : ℕ
  pub nonce : ℕ
  pub gas : ℕ
  pub max_fee_per_gas : ℕ
  pub max_priority_fee_per_gas : ℕ

-- `W` is the state of everything outside of the client, its clock included. `bind` is
-- `getattr(contract.functions, name)(*args)`, and `read` is the `.call()` on it.
pub record Web3 (W : Type 0) : Type 1 where
  pub Provider : Type 0
  pub Contract : Type 0
  pub Bound : Type 0
  pub Value : Type 0
  pub Transaction : Type 0
  pub now : W → ℕ
  pub sleep : ℕ → W → W
  pub get_provider : Exec Fault W Provider
  pub identity : Provider → ℕ
  pub make_contract : Provider → String → Exec Fault W Contract
  pub bind : Contract → String → List Value → Exec Fault W Bound
  pub read : Bound → Exec Fault W Value
  pub transaction_count : Provider → String → Exec Fault W ℕ
  pub estimate_gas : Bound → String → Exec Fault W ℕ
  pub fee_history : Provider → ℕ → ℕ → Exec Fault W FeeHistory
  pub build_transaction : Bound → Fields → Exec Fault W Transaction
  pub sign_transaction : Transaction → Exec Fault W Transaction
  pub send_raw_transaction : Provider → Transaction → Exec Fault W String
  pub wait_for_receipt : Provider → String → Exec Fault W Receipt
  pub get_receipt : Provider → String → Exec Fault W Receipt
  pub process_receipt : Contract → String → Receipt → Exec Fault W (List Value)
