-- ===== src/Tools/DefiTests.antt =====
-- Tests of the lending tool, and its theorems at concrete inputs.
use big_x.Base.{◌≡◌, refl, Bool, false, none, some}
use big_x.Base.Exec.{ok, err}
use big_x.Resilience.Breaker.{new_breaker, allow, record_success}
use big_x.Tools.Defi.{
  AssetConfig, PoolConfig, below_minimum, Contracts, CallPlan, Params, Defi, is_paused,
  check_not_paused, to_decimal_amount, Registries, call_to, build_call_plan,
}
use big_x.Tools.DefiLaws.{IsPlan, build_call_plan-IsPlan}

-- The world says whether the supply is paused.
abbrev contracts : Contracts Bool
contracts = record {
  encode = λ address fn args. ok fn;
  contract_at = λ address. ok tt;
  is_supply_paused = λ address w. (ok w, w);
  reserve_data = λ address asset w. (ok tt, w);
  now = λ w. 100;
}

abbrev usdc : AssetConfig
usdc = record {
  address = "0xusdc";
  decimals = 6;
  min_amount = some (record { digits = 1; places = 0 });
  max_amount = none;
}

abbrev comet : PoolConfig
comet = record { address = "0xpool"; abi = "comet"; chain_id = 8453 }

abbrev registries : Registries
registries = record { pools = λ p c. some comet; assets = λ a. some usdc }

-- 2.5 USDC
abbrev params : Params
params = record {
  protocol = "compound";
  chain_id = 8453;
  asset = "USDC";
  raw = some (record { digits = 25; places = 1 });
  on_behalf_of = "0xme";
}

abbrev running : Defi Bool
running = record { circuit = new_breaker 5 30; world = false }

abbrev plan : CallPlan
plan = record {
  approval_call = some (call_to "0xusdc" "approve");
  action_call = call_to "0xpool" "supply";
  protocol = "compound";
  asset_symbol = "USDC";
  amount = record { digits = 25; places = 1 };
}

planned : build_call_plan contracts registries "deposit" params running ≡ (ok plan, running)
unfolding build_call_plan check_not_paused is_paused to_decimal_amount allow record_success
planned = refl

too_little : to_decimal_amount (some (record { digits = 99; places = 2 })) usdc ≡ err below_minimum
unfolding to_decimal_amount
too_little = refl

build_call_plan-IsPlan_example : IsPlan contracts registries "deposit" params plan
build_call_plan-IsPlan_example =
    build_call_plan-IsPlan contracts registries "deposit" params running running plan planned
