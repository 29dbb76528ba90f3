-- ===== src/Orchestrator/Service.antt =====
-- main.py: the endpoint /agent/message.
use big_x.Base.{ℕ, String, Bool, true, false, Option, none, some, length}
use big_x.Base.Exec.{Result, ok, err}
use big_x.Orchestrator.State.{AgentState, Critique, Status}
use big_x.Orchestrator.World.{Env, Trace}
use big_x.Orchestrator.Graph.{Failure, planner_node, run_from, build_initial_state}

-- `_summarize`, with the numbers and texts that the reply quotes.
pub data Reply : Type 0 where
  completed : ℕ → Reply
  could_not_complete : String → Reply
  still : Status → Reply

abbrev feedback_of : Option Critique → String
feedback_of none = "unknown error"
feedback_of (some c) = c.feedback

abbrev summarize_as : Status → AgentState → Reply
summarize_as Status.done s = completed (length s.subtasks)
summarize_as Status.failed s = could_not_complete (feedback_of s.critique)
summarize_as status s = still status

unfoldable pub summarize : AgentState → Reply
summarize s = summarize_as s.status s

pub data Response : Type 0 where
  message : String → Status → Reply → Response
  http_error : ℕ → Response

abbrev respond : String → Result Failure AgentState → Response
respond task_id (ok s) = message task_id s.status (summarize s)
respond task_id (err e) = http_error 500

-- `handle_message`: `ready` says that the graph is compiled, and `task_id` is the fresh UUID.
unfoldable pub handle_message : Env → ℕ → Bool → String → String → String → Trace → Response × Trace
handle_message env limit false task_id agent_id text tr = (http_error 503, tr)
handle_message env limit true task_id agent_id text tr =
    let (r, tr') =
      run_from env limit planner_node (build_initial_state task_id agent_id text 2) tr in
    (respond task_id r, tr')
