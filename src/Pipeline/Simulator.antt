-- ===== src/Pipeline/Simulator.antt =====
-- `SimulatorAgent` of contracts/planning_pipeline.py. Slippage and risk are scored as in
-- services/agent-orchestrator.
use Prim.Native.String.{◌++◌ as append}
use big_x.Base.{ℕ, String, Bool, true, false, some, get_elem?, if◌then◌else◌}
use big_x.Base.Exec.{ok, err, pure, raise, or_raise, ◌>>=◌, ◌>>◌}
use big_x.Orchestrator.State.{SubTask, AgentState, SimulationResult, Status}
use big_x.Orchestrator.World.{Call}
use big_x.Orchestrator.Simulator.{score_risk, estimate_slippage}
use big_x.Pipeline.World.{
  tool_resolution, policy_rejected, other, text_of, Env, Action, ask, update, catch, log_step,
  by_chain, by_policy, retried, simulator_role, succeeded, step_failed, call_built, gas_estimated,
  checked,
}

abbrev pub current : AgentState → Action SubTask
current s =
    or_raise (get_elem? s.subtasks s.current_subtask_index) (other "list index out of range")

abbrev pub risk : SubTask → Action ℕ
risk t = elim (score_risk t (estimate_slippage t)) [ ok n ↦ pure n | err e ↦ raise (other e) ]

abbrev pub verdict_result : SubTask → ℕ → ℕ → Bool × String → SimulationResult
verdict_result t gas score verdict = record {
  estimated_gas = gas;
  estimated_slippage_bps = estimate_slippage t;
  risk_score = score;
  passed_policy_check = verdict.0;
  policy_reason = verdict.1;
}

abbrev pub set_simulation : SimulationResult → AgentState → AgentState
set_simulation r s = record s {
  simulation = some r;
  status = if r.passed_policy_check then Status.executing else Status.failed;
}

module _ (env : Env) where
  -- `_resolve_call`
  abbrev pub build : String → SubTask → Action Call
  build agent_id t =
      if env.is_registered t.tool
      then ask (λ tr. env.build_call tr agent_id t) (λ _. call_built)
      else raise (tool_resolution (append "Tool not registered: " t.tool))

  -- with the `except` around it
  unfoldable pub resolve : String → SubTask → Action Call
  resolve agent_id t =
      catch (build agent_id t)
        (λ e. log_step env simulator_role (some step_failed) >> raise (tool_resolution (text_of e)))

  abbrev pub finish : Bool → String → Action (Unit {0})
  finish true reason = log_step env simulator_role (some succeeded)
  finish false reason = do
    log_step env simulator_role (some step_failed)
    raise (policy_rejected reason)

  -- `SimulatorAgent.run`
  unfoldable pub run_simulator : Action (Unit {0})
  run_simulator m =
      (do
        t ← current m.state
        call ← resolve m.state.agent_id t
        gas ← retried (by_chain env) 3 (ask (λ tr. env.estimate_gas tr call) (λ _. gas_estimated))
        score ← risk t
        verdict ←
            retried (by_policy env) 3 (
              ask (λ tr. env.check_action tr m.state.agent_id call) (checked m.state.agent_id call))
        update (set_simulation (verdict_result t gas score verdict))
        finish verdict.0 verdict.1)
        m
