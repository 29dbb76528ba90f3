-- ===== src/Orchestrator/Retries.antt =====
-- Proofs that the retry counter bounds how often the LLM is asked for a plan.
use big_x.Base.{
  ℕ, zero, suc, ◌+◌, ◌-◌, ◌≤◌, ◌≡◌, String, [], ◌∷◌, arith, Option-cases, inl, inr, get_elem?,
}
use big_x.Base.Exec.{Result, ok, Result-cases}
use big_x.Orchestrator.State.{SubTask, AgentState}
use big_x.Orchestrator.World.{Event, completion, Env, Trace}
use big_x.Orchestrator.Planner.{planner}
use big_x.Orchestrator.Memory.{memory}
use big_x.Orchestrator.Simulator.{simulator}
use big_x.Orchestrator.Executor.{attempt, executor}
use big_x.Orchestrator.Critic.{critic}
use big_x.Orchestrator.Graph.{
  Node, planner_node, memory_node, simulator_node, executor_node, critic_node, end_node, next,
  run_node, run_from,
}

abbrev plans_of : Event → ℕ
plans_of completion = 1
plans_of _ = 0

-- How often the LLM was asked.
abbrev pub completions : Trace → ℕ
completions [] = 0
completions (e ∷ tr) = plans_of e + completions tr

-- How often it may still be asked from a node on.
abbrev allowed : Node → AgentState → ℕ
allowed planner_node s = 1 + (s.max_retries - s.retry_count)
allowed end_node s = 0
allowed _ s = s.max_retries - s.retry_count

-- A node's calls, with what it leaves to the next, fit in what was left to it.
abbrev Spends : Node → AgentState → Trace → Result String AgentState × Trace → Type 0
Spends node s tr (r, tr') =
    (completions tr' ≤ completions tr + allowed node s)
    × ((s' : AgentState)
        → r ≡ ok s'
        → completions tr' + allowed (next node s'.status) s' ≤ completions tr + allowed node s)

module _ (env : Env) where
  completions-attempt :
      (a : String) (t : SubTask) (tr : Trace) → completions (attempt env a t tr).1 ≡ completions tr
  unfolding attempt
  completions-attempt a t tr = ground arith

  run_node-Spends :
      (node : Node) (s : AgentState) (tr : Trace) → Spends node s tr (run_node env node s tr)
  unfolding planner memory simulator executor critic
  run_node-Spends planner_node s tr = ground arith
  run_node-Spends memory_node s tr = ground arith
  run_node-Spends simulator_node s tr = ground arith
  run_node-Spends executor_node s tr =
      elim (Option-cases (get_elem? s.subtasks s.current_subtask_index)) [
        | inl beyond ↦ ground arith
        | inr (t, found) ↦ ground (arith, completions-attempt s.agent_id t tr)
      ]
  run_node-Spends critic_node s tr = ground arith
  run_node-Spends end_node s tr = ground arith

  completions-run_from_at :
      (limit : ℕ) (node : Node) (s : AgentState) (tr : Trace)
      → completions (run_from env limit node s tr).1 ≤ completions tr + allowed node s
  unfolding run_from
  completions-run_from_at limit end_node s tr = omega arith
  completions-run_from_at zero _ s tr = omega arith
  completions-run_from_at (suc limit) node s tr =
      let spent = run_node-Spends node s tr in
      elim (Result-cases (run_node env node s tr).0) [
        | inr (e, failed) ↦ rw failed spent.0
        | inl (s', returned) ↦ rw returned (
            omega (
              arith,
              spent.1 s' returned,
              completions-run_from_at limit (next node s'.status) s' (run_node env node s tr).1,
            ))
      ]

  -- Whatever the answers from outside and the limit on steps, a run from the planner on asks the LLM
  -- at most once, and once more for each retry that is left.
  pub completions-run_from :
      (limit : ℕ) (s : AgentState) (tr : Trace)
      → completions (run_from env limit planner_node s tr).1
        ≤ completions tr + (1 + (s.max_retries - s.retry_count))
  completions-run_from limit s tr = completions-run_from_at limit planner_node s tr
