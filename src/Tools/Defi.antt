-- ===== src/Tools/Defi.antt =====
-- `DeFiTool` of services/tool_router/src/tools/defi_tool.py with its two adapters. web3 is the record
-- Contracts; its breaker is that of Resilience.Breaker, whose methods the file repeats. An amount is a
-- decimal of at most the 28 digits that Python computes with exactly.
use big_x.Base.{
  ℕ, ◌*◌, ◌/◌, ◌^◌, String, Bool, true, false, not, ◌&&◌, Option, none, some, List, [], ◌∷◌, ltb,
  ◌==◌, if◌then◌else◌,
}
use big_x.Base.Exec.{Result, ok, err, Exec, pure, raise, ◌>>=◌, ◌>>◌, or_raise, lift}
use big_x.Resilience.Breaker.{CircuitBreaker, allow, record_success, record_failure}
use package.text.Mathlib.Text.{◌==◌ as same_text}

-- A decimal `digits / 10 ^ places`; amounts that are not above zero are `none` in `positive_amount`.
pub record Decimal : Type 0 where
  pub digits : ℕ
  pub places : ℕ

abbrev pub is_below : Decimal → Decimal → Bool
is_below a b = ltb (a.digits * 10 ^ b.places) (b.digits * 10 ^ a.places)

pub record AssetConfig : Type 0 where
  pub address : String
  pub decimals : ℕ
  pub min_amount : Option Decimal
  pub max_amount : Option Decimal

pub record PoolConfig : Type 0 where
  pub address : String
  pub abi : String
  pub chain_id : ℕ

pub data Adapter : Type 0 where
  aave compound : Adapter

pub data Arg : Type 0 where
  addr : String → Arg
  amount : ℕ → Arg

pub data DefiError : Type 0 where
  unsupported_protocol no_pool unknown_asset not_positive below_minimum above_maximum : DefiError
  breaker_open type_error paused unsupported_action : DefiError
  web3_error : String → DefiError

-- `contract.encodeABI` at a checksummed address, and the reads of the pause states, where the first
-- function is the checksum and the contract.
pub record Contracts (W : Type 0) : Type 0 where
  pub encode : String → String → List Arg → Result DefiError String
  pub contract_at : String → Result DefiError (Unit {0})
  pub is_supply_paused : String → Exec DefiError W Bool
  pub reserve_data : String → String → Exec DefiError W (Unit {0})
  pub now : W → ℕ

pub record ToolCall : Type 0 where
  pub target : String
  pub value : ℕ
  pub calldata : String

pub record CallPlan : Type 0 where
  pub approval_call : Option ToolCall
  pub action_call : ToolCall
  pub protocol : String
  pub asset_symbol : String
  pub amount : Decimal

pub record Params : Type 0 where
  pub protocol : String
  pub chain_id : ℕ
  pub asset : String
  pub raw : Option Decimal
  pub on_behalf_of : String

abbrev pub call_to : String → String → ToolCall
call_to target calldata = record { target = target; value = 0; calldata = calldata }

-- The breaker, and what the contracts are in.
pub record Defi (W : Type 0) : Type 0 where
  pub circuit : CircuitBreaker
  pub world : W

-- The adapters' `encode_deposit` and `encode_withdraw`
abbrev pub deposit_args : Adapter → String → ℕ → String → List Arg
deposit_args aave asset n owner = addr asset ∷ amount n ∷ addr owner ∷ amount 0 ∷ []
deposit_args compound asset n owner = addr asset ∷ amount n ∷ []

abbrev pub withdraw_args : Adapter → String → ℕ → String → List Arg
withdraw_args aave asset n owner = addr asset ∷ amount n ∷ addr owner ∷ []
withdraw_args compound asset n owner = addr asset ∷ amount n ∷ []

abbrev pub or_false : {W : Type 0} → Result DefiError Bool × W → Result DefiError Bool × W
or_false (ok b, w) = (ok b, w)
or_false (err e, w) = (ok false, w)

-- What `getReserveData` answers is not looked at.
abbrev pub always_false : {W : Type 0} → Result DefiError (Unit {0}) × W → Result DefiError Bool × W
always_false (r, w) = (ok false, w)

module _ {W : Type 0} (web3 : Contracts W) where
  abbrev pub read_pause : Adapter → PoolConfig → AssetConfig → Exec DefiError W Bool
  read_pause aave pool asset w = always_false (web3.reserve_data pool.address asset.address w)
  read_pause compound pool asset w = or_false (web3.is_supply_paused pool.address w)

  -- The adapters' `is_paused`
  abbrev pub paused_at :
      Result DefiError (Unit {0}) → Adapter → PoolConfig → AssetConfig → Exec DefiError W Bool
  paused_at (ok _) adapter pool asset = read_pause adapter pool asset
  paused_at (err e) adapter pool asset = raise e

  unfoldable pub is_paused : Adapter → PoolConfig → AssetConfig → Exec DefiError W Bool
  is_paused adapter pool asset = paused_at (web3.contract_at pool.address) adapter pool asset

  -- The read of the pause state, with the breaker told; a read that raises blocks nothing.
  abbrev pub after_read :
      Result DefiError Bool × W → CircuitBreaker → Result DefiError (Unit {0}) × Defi W
  after_read (ok p, w) b =
      (if p then err paused else ok tt, record { circuit = record_success b; world = w })
  after_read (err e, w) b = (ok tt, record { circuit = record_failure (web3.now w) b; world = w })

  abbrev pub read_if :
      Option (Bool × CircuitBreaker)
      → Adapter
      → PoolConfig
      → AssetConfig
      → Exec DefiError (Defi W) (Unit {0})
  read_if none adapter pool asset s = (err type_error, s)
  read_if (some (false, b)) adapter pool asset s = (err breaker_open, record s { circuit = b })
  read_if (some (true, b)) adapter pool asset s =
      after_read (is_paused adapter pool asset s.world) b

  unfoldable pub check_not_paused :
      Adapter → PoolConfig → AssetConfig → Exec DefiError (Defi W) (Unit {0})
  check_not_paused adapter pool asset s =
      read_if (allow (web3.now s.world) s.circuit) adapter pool asset s

-- `if asset.min_amount and ...`, where a limit of zero counts as none
abbrev pub is_over : Decimal → Option Decimal → Bool
is_over a none = false
is_over a (some most) = not (most.digits == 0) && is_below most a

abbrev pub is_under : Decimal → Option Decimal → Bool
is_under a none = false
is_under a (some least) = not (least.digits == 0) && is_below a least

abbrev pub limited : Decimal → AssetConfig → Result DefiError Decimal
limited a asset =
    if a.digits == 0
    then err not_positive
    else if is_under a asset.min_amount
    then err below_minimum
    else if is_over a asset.max_amount
    then err above_maximum
    else ok a

-- `_to_decimal_amount`, where `none` is what is not above zero
unfoldable pub to_decimal_amount : Option Decimal → AssetConfig → Result DefiError Decimal
to_decimal_amount none asset = err not_positive
to_decimal_amount (some a) asset = limited a asset

-- `int((amount * (10 ** asset.decimals)).to_integral_value(rounding=ROUND_DOWN))`
abbrev pub raw_amount : Decimal → ℕ → ℕ
raw_amount a decimals = a.digits * 10 ^ decimals / 10 ^ a.places

abbrev pub adapter_of : String → Option Adapter
adapter_of protocol =
    if same_text protocol "aave"
    then some aave
    else if same_text protocol "compound"
    then some compound
    else none

-- The registries are functions to what they hold.
pub record Registries : Type 0 where
  pub pools : String → ℕ → Option PoolConfig
  pub assets : String → Option AssetConfig

module _ {W : Type 0} (web3 : Contracts W) where
  -- `_build_approval_call`
  abbrev pub approval : AssetConfig → String → ℕ → Exec DefiError (Defi W) ToolCall
  approval asset spender n = do
    calldata ← lift (web3.encode asset.address "approve" (addr spender ∷ amount n ∷ []))
    pure (call_to asset.address calldata)

  abbrev pub deposit :
      Adapter
      → PoolConfig
      → AssetConfig
      → ℕ
      → String
      → Exec DefiError (Defi W) (String × Option ToolCall)
  deposit adapter pool asset n owner = do
    calldata ← lift (web3.encode pool.address "supply" (deposit_args adapter asset.address n owner))
    call ← approval asset pool.address n
    pure (calldata, some call)

  abbrev pub withdraw :
      Adapter
      → PoolConfig
      → AssetConfig
      → ℕ
      → String
      → Exec DefiError (Defi W) (String × Option ToolCall)
  withdraw adapter pool asset n owner = do
    calldata ←
        lift (web3.encode pool.address "withdraw" (withdraw_args adapter asset.address n owner))
    pure (calldata, none)

  abbrev pub act :
      String
      → Adapter
      → PoolConfig
      → AssetConfig
      → ℕ
      → String
      → Exec DefiError (Defi W) (String × Option ToolCall)
  act action adapter pool asset n owner =
      if same_text action "deposit"
      then deposit adapter pool asset n owner
      else if same_text action "withdraw"
      then withdraw adapter pool asset n owner
      else raise unsupported_action

  unfoldable pub build_call_plan : Registries → String → Params → Exec DefiError (Defi W) CallPlan
  build_call_plan reg action params = do
    adapter ← or_raise (adapter_of params.protocol) unsupported_protocol
    pool ← or_raise (reg.pools params.protocol params.chain_id) no_pool
    asset ← or_raise (reg.assets params.asset) unknown_asset
    a ← lift (to_decimal_amount params.raw asset)
    check_not_paused web3 adapter pool asset
    calls ← act action adapter pool asset (raw_amount a asset.decimals) params.on_behalf_of
    pure (record {
      approval_call = calls.1;
      action_call = call_to pool.address calls.0;
      protocol = params.protocol;
      asset_symbol = params.asset;
      amount = a;
    })
