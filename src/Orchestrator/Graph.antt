-- ===== src/Orchestrator/Graph.antt =====
-- graph/langgraph_flow.py: the graph of the five agents. LangGraph runs one node at a step, and
-- raises when the limit on steps is used up before the end.
use big_x.Base.{ℕ, zero, suc, String, none, []}
use big_x.Base.Exec.{Result, ok, err, pure}
use big_x.Orchestrator.State.{AgentState, Status}
use big_x.Orchestrator.World.{Error, Env, Trace, Action}
use big_x.Orchestrator.Planner.{planner}
use big_x.Orchestrator.Memory.{memory}
use big_x.Orchestrator.Simulator.{simulator}
use big_x.Orchestrator.Executor.{executor}
use big_x.Orchestrator.Critic.{critic}

pub data Node : Type 0 where
  planner_node memory_node simulator_node executor_node critic_node end_node : Node

-- `route_after_critic`
abbrev pub route_after_critic : Status → Node
route_after_critic Status.simulating = simulator_node
route_after_critic Status.retrying = planner_node
route_after_critic _ = end_node

-- The edges: which node follows one that has returned.
abbrev pub next : Node → Status → Node
next planner_node _ = memory_node
next memory_node _ = simulator_node
next simulator_node _ = executor_node
next executor_node _ = critic_node
next critic_node status = route_after_critic status
next end_node _ = end_node

abbrev pub run_node : Env → Node → AgentState → Action AgentState
run_node env planner_node = planner env
run_node env memory_node = memory env
run_node env simulator_node = simulator env
run_node env executor_node = executor env
run_node env critic_node = critic env
run_node env end_node = pure

-- How a run ends without a final state: a node's exception, or the limit on steps.
pub data Failure : Type 0 where
  raised : Error → Failure
  recursion_limit : Failure

abbrev pub Run : Type 0
Run = Result Failure AgentState × Trace

abbrev and_then : Result Error AgentState → (AgentState → Trace → Run) → Trace → Run
and_then (ok s) rest tr = rest s tr
and_then (err e) rest tr = (err (raised e), tr)

-- `ainvoke` from a node on, with the steps that the limit leaves.
unfoldable pub run_from : Env → ℕ → Node → AgentState → Trace → Run
run_from env limit end_node s tr = (ok s, tr)
run_from env zero node s tr = (err recursion_limit, tr)
run_from env (suc limit) node s tr =
    and_then (run_node env node s tr).0 (λ s'. run_from env limit (next node s'.status) s')
      (run_node env node s tr).1

unfoldable pub build_initial_state : String → String → String → ℕ → AgentState
build_initial_state task_id agent_id user_request max_retries = record {
  task_id = task_id;
  agent_id = agent_id;
  user_request = user_request;
  context = record { portfolio = none; recent_history = []; relevant_docs = [] };
  subtasks = [];
  current_subtask_index = 0;
  simulation = none;
  execution = none;
  critique = none;
  retry_count = 0;
  max_retries = max_retries;
  status = Status.planning;
}
