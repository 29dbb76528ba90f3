-- ===== src/Pipeline/CoveredRun.antt =====
-- Proofs that a whole run of the pipeline keeps its dispatches covered.
use big_x.Base.{ℕ, zero, suc, ◌≡◌, refl, arith, String, false}
use big_x.Base.Exec.{Result, ok, err}
use big_x.Base.Triple.{Post, Keeps, Keeps-pure}
use big_x.Orchestrator.Executor.{is_passed}
use big_x.Orchestrator.Graph.{
  Node, planner_node, memory_node, simulator_node, executor_node, critic_node, end_node, next,
}
use big_x.Pipeline.World.{Exc, Env, Machine}
use big_x.Pipeline.Graph.{run_agent, wrapped, settle, run_graph}
use big_x.Pipeline.Covered.{IsCovered, Inv}
use big_x.Pipeline.CoveredPlan.{Inv-run_planner, Inv-run_memory}
use big_x.Pipeline.CoveredNodes.{Inv-run_simulator, Inv-run_executor, Inv-run_critic}

module _ (a : String) (env : Env) where
  Inv-run_agent : (node : Node) → Keeps (Inv a) (run_agent env node)
  Inv-run_agent planner_node = Inv-run_planner a env
  Inv-run_agent memory_node = Inv-run_memory a env
  Inv-run_agent simulator_node = Inv-run_simulator a env
  Inv-run_agent executor_node = Inv-run_executor a env
  Inv-run_agent critic_node = Inv-run_critic a env
  Inv-run_agent end_node = Keeps-pure (Inv a) tt

  Inv-settle :
      (r : Result Exc (Unit {0}) × Machine) → Post (Inv a) (λ _. Inv a) r → Inv a (settle r.0 r.1)
  Inv-settle (ok x, m) h = h
  Inv-settle (err e, m) h = h

  Inv-wrapped : (node : Node) (m : Machine) → Inv a m → Inv a (wrapped env node m)
  unfolding wrapped
  Inv-wrapped node m h = Inv-settle (run_agent env node m) ((Inv-run_agent node).at m h)

  Inv-run_graph :
      (limit : ℕ) (node : Node) (m : Machine) → Inv a m → Inv a (run_graph env limit node m).1
  unfolding run_graph
  Inv-run_graph limit end_node m h = h
  Inv-run_graph zero planner_node m h = h
  Inv-run_graph zero memory_node m h = h
  Inv-run_graph zero simulator_node m h = h
  Inv-run_graph zero executor_node m h = h
  Inv-run_graph zero critic_node m h = h
  Inv-run_graph (suc limit) node m h =
      Inv-run_graph limit (next node (wrapped env node m).state.status) (wrapped env node m)
        (Inv-wrapped node m h)

-- A run that starts at the planner without a verdict, and whose earlier calls are covered, dispatches
-- a subtask only after some earlier policy check has allowed the same agent to act: over all retries
-- and all answers of the outside world, for nodes that raise too, and for runs that the limit on steps
-- cuts off.
pub run_graph-IsCovered :
    (env : Env) (limit : ℕ) (m : Machine)
    → IsCovered m.trace
    → is_passed m.state.simulation ≡ false
    → IsCovered (run_graph env limit planner_node m).1.trace
run_graph-IsCovered env limit m covered unchecked =
    (Inv-run_graph m.state.agent_id env limit planner_node m
      (covered, (refl, λ passed. absurd (ground arith)))).0
