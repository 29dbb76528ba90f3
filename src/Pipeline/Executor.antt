-- ===== src/Pipeline/Executor.antt =====
-- `ExecutorAgent` of contracts/execution_review.py.
use big_x.Base.{String, Bool, true, false, none, some}
use big_x.Base.Json.{Json}
use big_x.Base.Exec.{ok, err, pure, raise, ◌>>=◌, ◌>>◌}
use big_x.Orchestrator.State.{SubTask, Outcome, ExecutionResult, AgentState, Status}
use big_x.Orchestrator.Executor.{failure, blocked, receipt_result, amount_usd, is_passed}
use big_x.Pipeline.World.{
  other, text_of, Env, Action, ask, update, catch, log_step, no_circuit, by_chain, by_execution,
  retried, StepStatus, executor_role, succeeded, step_failed, dispatched, receipt_awaited,
  spend_recorded,
}
use big_x.Pipeline.Simulator.{current}

abbrev pub step_of : Outcome → StepStatus
step_of Outcome.confirmed = succeeded
step_of Outcome.failed = step_failed

abbrev pub set_execution : ExecutionResult → AgentState → AgentState
set_execution r s = record s { execution = some r; status = Status.reviewing }

module _ (env : Env) where
  -- `subtask["params"].get("amount_usd", 0)`, of which a validated plan always has the object
  abbrev pub amount_of : SubTask → Action Json
  amount_of t = elim t.params [
    | none ↦ raise (other "'params'")
    | some p ↦ elim (amount_usd p) [ ok v ↦ pure v | err e ↦ raise (other e) ]
  ]

  abbrev pub report : String → SubTask → Bool → Action (Unit {0})
  report agent_id t false = pure tt
  report agent_id t true = do
    amount ← amount_of t
    retried (no_circuit env) 2
        (ask (λ tr. env.record_spend tr agent_id amount) (spend_recorded agent_id amount))

  -- The body of the `try`.
  unfoldable pub submit : String → SubTask → Action ExecutionResult
  submit agent_id t = do
    tx_hash ←
        retried (by_execution env) 2
          (ask (λ tr. env.dispatch tr agent_id t) (dispatched agent_id t))
    receipt ←
        retried (by_chain env) 3
          (ask (λ tr. env.wait_for_receipt tr tx_hash) (receipt_awaited tx_hash))
    report agent_id t receipt.success
    pure (receipt_result tx_hash receipt)

  abbrev pub execute : AgentState → SubTask → Bool → Action (Unit {0})
  execute s t true = do
    result ← catch (submit s.agent_id t) (λ e. pure (failure (text_of e)))
    update (set_execution result)
    log_step env executor_role (some (step_of result.status))
  execute s t false = update (set_execution blocked)

  -- `ExecutorAgent.run`
  unfoldable pub run_executor : Action (Unit {0})
  run_executor m = (do t ← current m.state; execute m.state t (is_passed m.state.simulation)) m
