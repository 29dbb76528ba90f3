-- ===== src/Orchestrator/Executor.antt =====
-- agents/executor.py: submits the subtask, waits for its receipt and records the spend.
use big_x.Base.{String, Bool, true, false, Option, none, some, if◌then◌else◌}
use big_x.Base.Json
use big_x.Base.Json.{Json, num, obj}
use big_x.Base.Exec.{Result, ok, err, pure, or_raise, ◌>>=◌, ◌>>◌}
use big_x.Orchestrator.State.{
  SubTask, Outcome, ExecutionResult, SimulationResult, AgentState, Status,
}
use big_x.Orchestrator.World.{
  Error, Env, Receipt, Action, ask, session_opened, dispatched, receipt_awaited, spend_recorded,
}
use big_x.Orchestrator.Simulator.{current_subtask}

abbrev pub failure : String → ExecutionResult
failure e = record {
  tx_hash = none;
  status = Outcome.failed;
  actual_gas_used = none;
  error = some e;
}

abbrev pub blocked : ExecutionResult
blocked = failure "Blocked by policy check before execution"

abbrev pub receipt_result : String → Receipt → ExecutionResult
receipt_result tx_hash receipt = record {
  tx_hash = some tx_hash;
  status = if receipt.success then Outcome.confirmed else Outcome.failed;
  actual_gas_used = some receipt.gas_used;
  error = if receipt.success then none else some "Transaction reverted";
}

-- `params.get("amount_usd", 0)`
abbrev pub amount_usd : Json → Result Error Json
amount_usd (obj fs) = elim (Json.get fs "amount_usd") [ none ↦ ok (num 0) | some v ↦ ok v ]
amount_usd _ = err "object has no attribute 'get'"

-- `record_spend`, called for a receipt of success only; the argument may raise first
abbrev spend : Env → String → Json → Bool → Action (Unit {0})
spend env agent_id params false = pure tt
spend env agent_id params true = do
  amount ← λ tr. (amount_usd params, tr)
  ask (λ tr. env.record_spend tr agent_id amount) (spend_recorded agent_id amount)

-- The body of the `try`.
unfoldable pub attempt : Env → String → SubTask → Action ExecutionResult
attempt env agent_id subtask = do
  action ← or_raise subtask.action "'action'"
  params ← or_raise subtask.params "'params'"
  tx_hash ←
      ask (λ tr. env.dispatch tr agent_id subtask.tool action params) (dispatched agent_id subtask)
  receipt ← ask (λ tr. env.wait_for_receipt tr tx_hash) (receipt_awaited tx_hash)
  spend env agent_id params receipt.success
  ask (λ tr. env.open_session tr) (λ _. session_opened)
  pure (receipt_result tx_hash receipt)

-- `except Exception as exc`
abbrev handled : Result Error ExecutionResult → ExecutionResult
handled (ok r) = r
handled (err e) = failure e

-- `not simulation or not simulation["passed_policy_check"]` fails
abbrev pub is_passed : Option SimulationResult → Bool
is_passed none = false
is_passed (some r) = r.passed_policy_check

-- `ExecutorAgent.run`
unfoldable pub executor : Env → AgentState → Action AgentState
executor env s = do
  subtask ← current_subtask s
  result ←
      if is_passed s.simulation
      then (λ tr. (
        ok (handled (attempt env s.agent_id subtask tr).0),
        (attempt env s.agent_id subtask tr).1,
      ))
      else pure blocked
  pure (record s { execution = some result; status = Status.reviewing })
