-- ===== src/Orchestrator/Justified.antt =====
-- Proofs about the order of the orchestrator's outside calls: nothing is submitted without a policy
-- check that passed, and a spend is recorded only for a receipt of success.
use big_x.Base.{ℕ, zero, suc, ◌≡◌, true, some, [], ◌∷◌, arith, inl, inr, Option-cases, get_elem?}
use big_x.Base.Json.{Json}
use big_x.Base.Exec.{Result, ok, Result-cases}
use big_x.Orchestrator.State.{SubTask, AgentState}
use big_x.Orchestrator.World.{
  Event, Env, Trace, checked, dispatched, receipt_awaited, spend_recorded,
}
use big_x.Orchestrator.Planner.{planner}
use big_x.Orchestrator.Memory.{memory}
use big_x.Orchestrator.Simulator.{simulator}
use big_x.Orchestrator.Executor.{attempt, executor, is_passed, amount_usd}
use big_x.Orchestrator.Critic.{critic}
use big_x.Orchestrator.Graph.{
  Node, planner_node, memory_node, simulator_node, executor_node, critic_node, end_node, next,
  run_node, run_from,
}
use big_x.Base.{String}

-- The latest call was a policy check for this agent, and it allowed the action.
abbrev pub PassedBefore : String → Trace → Type 0
PassedBefore a (checked b call (ok (true, reason)) ∷ tr) = a ≡ b
PassedBefore a _ = ⊥

abbrev pub AmountOf : SubTask → Json → Type 0
AmountOf t v = (p : Json) × (t.params ≡ some p) × (amount_usd p ≡ ok v)

-- What must have come just before a call. Only three kinds of call are constrained.
abbrev pub Allows : Event → Trace → Type 0
Allows (dispatched a t r) tr = PassedBefore a tr
Allows (receipt_awaited h r) (dispatched a t (ok g) ∷ tr) = h ≡ g
Allows (receipt_awaited h r) _ = ⊥
Allows (spend_recorded a v r) (receipt_awaited h (ok receipt) ∷ dispatched b t g ∷ tr) =
    (receipt.success ≡ true) × (a ≡ b) × AmountOf t v
Allows (spend_recorded a v r) _ = ⊥
Allows _ tr = Unit

abbrev pub IsJustified : Trace → Type 0
IsJustified [] = Unit
IsJustified (e ∷ tr) = Allows e tr × IsJustified tr

-- The invariant between nodes: the executor trusts only a check that has just been made.
abbrev pub Trusted : Node → AgentState → Trace → Type 0
Trusted executor_node s tr = is_passed s.simulation ≡ true → PassedBefore s.agent_id tr
Trusted _ s tr = Unit

abbrev Leaves : Node → Result String AgentState × Trace → Type 0
Leaves node (r, tr) =
    IsJustified tr × ((s : AgentState) → r ≡ ok s → Trusted (next node s.status) s tr)

module _ (env : Env) where
  attempt-IsJustified :
      (a : String) (t : SubTask) (tr : Trace)
      → IsJustified tr
      → PassedBefore a tr
      → IsJustified (attempt env a t tr).1
  unfolding attempt
  attempt-IsJustified a t tr j p = ground arith

  simulator-Leaves :
      (s : AgentState) (tr : Trace) → IsJustified tr → Leaves simulator_node (simulator env s tr)
  unfolding simulator
  simulator-Leaves s tr j = ground arith

  planner-Leaves :
      (s : AgentState) (tr : Trace) → IsJustified tr → Leaves planner_node (planner env s tr)
  unfolding planner
  planner-Leaves s tr j = ground arith

  memory-Leaves :
      (s : AgentState) (tr : Trace) → IsJustified tr → Leaves memory_node (memory env s tr)
  unfolding memory
  memory-Leaves s tr j = ground arith

  critic-Leaves :
      (s : AgentState) (tr : Trace) → IsJustified tr → Leaves critic_node (critic env s tr)
  unfolding critic
  critic-Leaves s tr j = ground arith

  executor-Leaves :
      (s : AgentState) (tr : Trace)
      → IsJustified tr
      → Trusted executor_node s tr
      → Leaves executor_node (executor env s tr)
  unfolding executor
  executor-Leaves s tr j trusted =
      elim (Option-cases (get_elem? s.subtasks s.current_subtask_index)) [
        | inl beyond ↦ ground arith
        | inr (t, found) ↦ ground (arith, attempt-IsJustified s.agent_id t tr j)
      ]

  run_node-Leaves :
      (node : Node) (s : AgentState) (tr : Trace)
      → IsJustified tr
      → Trusted node s tr
      → Leaves node (run_node env node s tr)
  run_node-Leaves planner_node s tr j h = planner-Leaves s tr j
  run_node-Leaves memory_node s tr j h = memory-Leaves s tr j
  run_node-Leaves simulator_node s tr j h = simulator-Leaves s tr j
  run_node-Leaves executor_node s tr j h = executor-Leaves s tr j h
  run_node-Leaves critic_node s tr j h = critic-Leaves s tr j
  run_node-Leaves end_node s tr j h = (j, λ s' e. tt)

  run_from-IsJustified_at :
      (limit : ℕ) (node : Node) (s : AgentState) (tr : Trace)
      → IsJustified tr
      → Trusted node s tr
      → IsJustified (run_from env limit node s tr).1
  unfolding run_from
  run_from-IsJustified_at limit end_node s tr j h = j
  run_from-IsJustified_at zero _ s tr j h = j
  run_from-IsJustified_at (suc limit) node s tr j h =
      let left = run_node-Leaves node s tr j h in
      elim (Result-cases (run_node env node s tr).0) [
        | inr (e, failed) ↦ rw failed left.0
        | inl (s', returned) ↦ rw returned (
            run_from-IsJustified_at limit (next node s'.status) s' (run_node env node s tr).1 left.0
              (left.1 s' returned))
      ]

  -- From the planner on and however many steps the graph is given, whatever the LLM, the chain and
  -- the policy engine answer: a subtask is dispatched only straight after a policy check for the
  -- same agent that allowed it, a receipt is awaited only for the hash that the dispatch returned,
  -- and a spend is recorded only for a receipt of success, with the amount of the subtask.
  pub run_from-IsJustified :
      (limit : ℕ) (s : AgentState) (tr : Trace)
      → IsJustified tr
      → IsJustified (run_from env limit planner_node s tr).1
  run_from-IsJustified limit s tr j = run_from-IsJustified_at limit planner_node s tr j tt
