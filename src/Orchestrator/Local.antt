-- ===== src/Orchestrator/Local.antt =====
-- The stand-ins of main.py for local mode: an LLM that always plans one price inspection, and a
-- chain, a policy engine and a router that allow and confirm everything.
use Prim.Native.Char.{code}
use Prim.Native.String.{◌++◌}
use big_x.Base.{String, true, Option, [], ◌==◌, if◌then◌else◌}
use big_x.Base.Json.{Json, arr, obj, nil}
use big_x.Base.Json
use big_x.Base.Exec.{ok}
use big_x.Orchestrator.World.{Env}

-- `user.replace('"', '')`
abbrev pub without_quotes : String → String
without_quotes String.[] = String.[]
without_quotes (String.◌∷◌ c s) =
    let rest = without_quotes s in if code c == 34 then rest else String.◌∷◌ c rest

-- `_LocalLLM.complete`
abbrev pub local_response : String → String
local_response user =
    "[{\"tool\": \"price_feed_tool\", \"action\": \"inspect\", \"params\": {\"query\": \""
    ++ without_quotes user
    ++ "\"}}]"

unfoldable pub local_env : (String → Option Json) → Env
local_env loads = record {
  loads = loads;
  local_mode = true;
  complete = λ tr user context. ok (local_response user);
  get_portfolio = λ tr agent_id. ok (
      obj (
        Json.Fields.field "agent_id" (Json.Json.text agent_id)
          (Json.Fields.field "balances" (arr nil) Json.Fields.end)));
  open_session = λ tr. ok tt;
  embed = λ tr query. ok [];
  query = λ tr embedding top_k. ok [];
  estimate_gas = λ tr call. ok 0;
  check_action = λ tr agent_id call. ok (true, "Allowed in local simulation mode");
  dispatch = λ tr agent_id tool action params. ok "0xlocal-simulation";
  wait_for_receipt = λ tr tx_hash. ok (record { success = true; gas_used = 0 });
  record_spend = λ tr agent_id value. ok tt;
}
