-- ===== src/Orchestrator/Simulator.antt =====
-- agents/simulator.py: gas, slippage and risk of the current subtask, and the policy check.
use big_x.Base.{ℕ, ◌+◌, ◌/◌, min, String, Bool, false, Option, none, some, get_elem?, if◌then◌else◌}
use big_x.Base.Json.{Json, is_text}
use big_x.Base.Exec.{Result, ok, err, pure, lift, or_raise, ◌>>=◌}
use big_x.Orchestrator.State.{SubTask, AgentState, Status}
use big_x.Orchestrator.World.{Error, Env, Call, Action, ask, gas_estimated, checked}
use package.text.Mathlib.Text.{◌==◌}

-- `state["subtasks"][state["current_subtask_index"]]`
abbrev pub current_subtask : AgentState → Action SubTask
current_subtask s =
    or_raise (get_elem? s.subtasks s.current_subtask_index) "list index out of range"

abbrev pub zero_address : String
zero_address = "0x0000000000000000000000000000000000000000"

-- `_resolve_call`: outside local mode it is still to be written.
abbrev resolve_call : Env → SubTask → Result Error Call
resolve_call env subtask =
    if env.local_mode
    then ok (record { target = zero_address; value = 0; calldata = "" })
    else err "Wire this up to services/tool_router"

unfoldable pub estimate_slippage : SubTask → ℕ
estimate_slippage subtask = if subtask.tool == "swap_tool" then 50 else 0

-- `subtask["action"] == "leverage"`, read only for a defi subtask
abbrev is_leverage : Option Json → Result Error Bool
is_leverage none = err "'action'"
is_leverage (some j) = ok (is_text j "leverage")

abbrev risk_sum : SubTask → ℕ → Bool → ℕ
risk_sum subtask slippage_bps leverage =
    min
      ((if subtask.tool == "bridge_tool" then 40 else 0)
        + (if leverage then 50 else 0)
        + min (slippage_bps / 10) 30)
      100

unfoldable pub score_risk : SubTask → ℕ → Result Error ℕ
score_risk subtask slippage_bps =
    if subtask.tool == "defi_tool"
    then elim (is_leverage subtask.action) [
      | err e ↦ err e
      | ok b ↦ ok (risk_sum subtask slippage_bps b)
    ]
    else ok (risk_sum subtask slippage_bps false)

-- `SimulatorAgent.run`
unfoldable pub simulator : Env → AgentState → Action AgentState
unfolding estimate_slippage
simulator env s = do
  subtask ← current_subtask s
  call ← lift (resolve_call env subtask)
  gas ← ask (λ tr. env.estimate_gas tr call) (λ _. gas_estimated call)
  risk ← lift (score_risk subtask (estimate_slippage subtask))
  verdict ← ask (λ tr. env.check_action tr s.agent_id call) (checked s.agent_id call)
  pure (record s {
    simulation = some (record {
      estimated_gas = gas;
      estimated_slippage_bps = estimate_slippage subtask;
      risk_score = risk;
      passed_policy_check = verdict.0;
      policy_reason = verdict.1;
    });
    status = if verdict.0 then Status.executing else Status.failed;
  })
