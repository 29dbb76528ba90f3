-- ===== src/Pipeline/Critic.antt =====
-- `CriticAgent` of contracts/execution_review.py.
use big_x.Base.{String, true, false, Option, none, some, List, [], ◌∷◌, any}
use big_x.Base.Text.{contains}
use big_x.Base.Exec.{or_raise, ◌>>=◌, ◌>>◌}
use big_x.Orchestrator.State.{Outcome, ExecutionResult, Critique, AgentState, Status}
use big_x.Orchestrator.Critic.{error_or, decide}
use big_x.Pipeline.World.{
  other, Env, Action, update, log_step, StepStatus, critic_role, step_failed,
}

abbrev pub transient_execution_errors : List String
transient_execution_errors =
    "Transaction reverted" ∷ "timeout" ∷ "nonce too low" ∷ "replacement transaction underpriced"
    ∷ []

abbrev pub failed_critique : String → Critique
failed_critique error = record {
  outcome_matches_intent = false;
  should_retry = any (λ p. contains p error) transient_execution_errors;
  feedback = error;
}

abbrev review_as : Outcome → ExecutionResult → Critique
review_as Outcome.confirmed execution = record {
  outcome_matches_intent = true;
  should_retry = false;
  feedback = "Execution confirmed on-chain as expected.";
}
review_as Outcome.failed execution =
    failed_critique (error_or execution.error "Unknown execution failure")

-- `_evaluate`
unfoldable pub review : ExecutionResult → Critique
review execution = review_as execution.status execution

-- `StepStatus(status)` for the statuses that the critic leaves: only "failed" is one of its values.
abbrev pub step_status : Status → Option StepStatus
step_status Status.failed = some step_failed
step_status _ = none

abbrev pub set_review : ExecutionResult → AgentState → AgentState
set_review execution s =
    decide execution.status (review execution).should_retry
      (record s { critique = some (review execution) })

module _ (env : Env) where
  abbrev pub log_review : Action (Unit {0})
  log_review n = log_step env critic_role (step_status n.state.status) n

  -- `CriticAgent.run`; the branch is that of services/agent-orchestrator
  unfoldable pub run_critic : Action (Unit {0})
  run_critic m =
      (do
        execution ← or_raise m.state.execution (other "'NoneType' object is not subscriptable")
        update (set_review execution)
        log_review)
        m
