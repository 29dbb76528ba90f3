-- ===== src/Orchestrator/Critic.antt =====
-- agents/critic.py: the verdict on an execution, and what comes next.
use big_x.Base.{
  ◌+◌, String, Bool, true, false, ◌&&◌, Option, none, some, List, [], ◌∷◌, length, any, ltb,
  if◌then◌else◌,
}
use big_x.Base.Text.{contains}
use big_x.Base.Exec.{pure, or_raise, ◌>>=◌, ◌>>◌}
use big_x.Orchestrator.State.{Outcome, ExecutionResult, Critique, AgentState, Status}
use big_x.Orchestrator.World.{Env, Action, ask, session_opened}

abbrev pub transient_errors : List String
transient_errors = "Transaction reverted" ∷ "timeout" ∷ "nonce too low" ∷ []

-- `execution.get("error") or d`: the empty text counts as no error
abbrev pub error_or : Option String → String → String
error_or none d = d
error_or (some String.[]) d = d
error_or (some (String.◌∷◌ c e)) d = String.◌∷◌ c e

unfoldable pub is_transient : Option String → Bool
is_transient e = any (λ p. contains p (error_or e "")) transient_errors

abbrev evaluate_as : Outcome → ExecutionResult → Critique
evaluate_as Outcome.confirmed execution = record {
  outcome_matches_intent = true;
  should_retry = false;
  feedback = "Execution confirmed on-chain as expected.";
}
evaluate_as Outcome.failed execution = record {
  outcome_matches_intent = false;
  should_retry = is_transient execution.error;
  feedback = error_or execution.error "Unknown execution failure";
}

-- `_evaluate`
unfoldable pub evaluate : ExecutionResult → Critique
evaluate execution = evaluate_as execution.status execution

-- The branch at the end of `run`.
abbrev pub decide : Outcome → Bool → AgentState → AgentState
decide Outcome.confirmed should_retry s =
    if ltb (s.current_subtask_index + 1) (length s.subtasks)
    then record s {
      current_subtask_index = s.current_subtask_index + 1;
      status = Status.simulating;
    }
    else record s { status = Status.done }
decide Outcome.failed should_retry s =
    if should_retry && ltb s.retry_count s.max_retries
    then record s { retry_count = s.retry_count + 1; status = Status.retrying }
    else record s { status = Status.failed }

-- `CriticAgent.run`. Without an execution its first use of one raises.
unfoldable pub critic : Env → AgentState → Action AgentState
unfolding evaluate
critic env s = do
  execution ← or_raise s.execution "'NoneType' object is not subscriptable"
  ask (λ tr. env.open_session tr) (λ _. session_opened)
  pure (
      decide execution.status (evaluate execution).should_retry
        (record s { critique = some (evaluate execution) }))
