-- ===== src/Pipeline/Stale.antt =====
-- Proofs about a verdict that outlives its subtask.
use big_x.Base.{ℕ, ◌+◌, ◌≡◌, arith, true, some, [], ◌∷◌, get_elem?}
use big_x.Base.Exec.{err}
use big_x.Orchestrator.State.{SubTask}
use big_x.Orchestrator.Executor.{is_passed}
use big_x.Orchestrator.Graph.{simulator_node}
use big_x.Pipeline.World.{Exc, Event, Trace, Env, Machine, checked}
use big_x.Pipeline.Simulator.{run_simulator, resolve, build}
use big_x.Pipeline.Executor.{run_executor, execute}
use big_x.Pipeline.Graph.{wrapped}

abbrev pub is_check : Event → ℕ
is_check (checked a call r) = 1
is_check _ = 0

-- How many policy checks were made.
abbrev pub checks : Trace → ℕ
checks [] = 0
checks (e ∷ tr) = is_check e + checks tr

-- If the current subtask's call cannot be built while the state still holds a verdict that passed, the
-- simulator leaves that verdict in the state and asks the policy engine nothing, and the executor that
-- follows submits the subtask on the old verdict.
pub executor_after_unresolved :
    (env : Env) (m : Machine) (t : SubTask) (e : Exc)
    → get_elem? m.state.subtasks m.state.current_subtask_index ≡ some t
    → (build env m.state.agent_id t m).0 ≡ err e
    → is_passed m.state.simulation ≡ true
    → let n = wrapped env simulator_node m in
      (checks n.trace ≡ checks m.trace) × (run_executor env n ≡ execute env n.state t true n)
unfolding wrapped run_simulator run_executor resolve
executor_after_unresolved env m t e found unresolved passed = ground arith
