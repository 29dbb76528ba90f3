-- ===== src/Pipeline/Graph.antt =====
-- contracts/agent_graph.py: the wrapper around a node, and the graph. The edges are those of
-- services/agent-orchestrator.
use Prim.Native.String.{◌++◌ as append}
use big_x.Base.{ℕ, zero, suc, String, Bool, true, false, some}
use big_x.Base.Exec.{Result, ok, err, pure}
use big_x.Orchestrator.State.{AgentState, Status}
use big_x.Orchestrator.Graph.{
  Node, planner_node, memory_node, simulator_node, executor_node, critic_node, end_node, next,
}
use big_x.Pipeline.World.{Exc, other, text_of, Env, Machine, Action}
use big_x.Pipeline.Planner.{run_planner}
use big_x.Pipeline.Memory.{run_memory}
use big_x.Pipeline.Simulator.{run_simulator}
use big_x.Pipeline.Executor.{run_executor}
use big_x.Pipeline.Critic.{run_critic}

abbrev pub run_agent : Env → Node → Action (Unit {0})
run_agent env planner_node = run_planner env
run_agent env memory_node = run_memory env
run_agent env simulator_node = run_simulator env
run_agent env executor_node = run_executor env
run_agent env critic_node = run_critic env
run_agent env end_node = pure tt

abbrev error_feedback : Exc → String
error_feedback (other e) = append "Unexpected error: " e
error_feedback e = text_of e

abbrev pub mark_failed : Exc → AgentState → AgentState
mark_failed e s = record s {
  status = Status.failed;
  critique = some (record {
    outcome_matches_intent = false;
    should_retry = false;
    feedback = error_feedback e;
  });
}

abbrev pub settle : Result Exc (Unit {0}) → Machine → Machine
settle (ok _) m = m
settle (err e) m = record m { state = mark_failed e m.state }

-- `_wrap_node`: the node's state comes back, marked as failed if the node raised.
unfoldable pub wrapped : Env → Node → Machine → Machine
wrapped env node m = settle (run_agent env node m).0 (run_agent env node m).1

-- `ainvoke` from a node on: whether it has reached the end, or stops at LangGraph's limit on steps
-- with a GraphRecursionError, and the state and the log that it leaves.
unfoldable pub run_graph : Env → ℕ → Node → Machine → Bool × Machine
run_graph env limit end_node m = (true, m)
run_graph env zero node m = (false, m)
run_graph env (suc limit) node m =
    run_graph env limit (next node (wrapped env node m).state.status) (wrapped env node m)
