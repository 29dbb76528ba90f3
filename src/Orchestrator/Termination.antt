-- ===== src/Orchestrator/Termination.antt =====
-- Proofs that the graph ends: each step lowers a count of the steps still to come, if the LLM's plans
-- are no longer than a bound.
use native.Mathlib.Nat.{mul-le-mul_right}
use big_x.Base.{
  ℕ, zero, suc, ◌+◌, ◌-◌, ◌*◌, ◌≤◌, ◌<◌, ◌≡◌, ◌≢◌, refl, ap, ◌∙◌, ◌⊎◌, String, Option, none, some,
  List, arith, inl, inr, Option-cases, get_elem?, get_elem?-lt, length,
}
use big_x.Base.Exec.{Result, ok, err, Result-cases}
use big_x.Orchestrator.State.{SubTask, AgentState, Context, Status, Outcome, ExecutionResult}
use big_x.Orchestrator.World.{Env, Trace}
use big_x.Orchestrator.Planner.{parse_subtasks, planner}
use big_x.Orchestrator.Memory.{memory}
use big_x.Orchestrator.Simulator.{simulator}
use big_x.Orchestrator.Executor.{executor}
use big_x.Orchestrator.Critic.{critic}
use big_x.Orchestrator.Graph.{
  Failure, Node, planner_node, memory_node, simulator_node, executor_node, critic_node, end_node,
  next, run_node, run_from, raised, recursion_limit,
}

-- Every plan that the LLM returns and the planner accepts has at most `bound` subtasks.
pub record ShortPlans (env : Env) (bound : ℕ) : Type 0 where
  pub short :
      (tr : Trace) (request : String) (context : Context) (response : String) (plan : List SubTask)
      → env.complete tr request context ≡ ok response
      → parse_subtasks env response ≡ ok plan
      → length plan ≤ bound

-- The steps of one plan, and those that the retries left may still take.
abbrev pub plan_steps : ℕ → ℕ
plan_steps bound = 3 + 3 * bound

abbrev retry_steps : ℕ → AgentState → ℕ
retry_steps bound s = (s.max_retries - s.retry_count) * plan_steps bound

abbrev left : AgentState → ℕ
left s = length s.subtasks - s.current_subtask_index

-- An upper bound on the steps from a node to the end.
abbrev cost : ℕ → Node → AgentState → ℕ
cost bound planner_node s = plan_steps bound + retry_steps bound s
cost bound memory_node s = 2 + 3 * left s + retry_steps bound s
cost bound simulator_node s = 1 + 3 * left s + retry_steps bound s
cost bound executor_node s = 3 * left s + retry_steps bound s
cost bound critic_node s = 3 * left s - 1 + retry_steps bound s
cost bound end_node s = 0

abbrev pub outcome_of : Option ExecutionResult → Option Outcome
outcome_of none = none
outcome_of (some x) = some x.status

-- How a run that ended normally has ended.
abbrev pub Settled : AgentState → Type 0
Settled s =
    ((s.status ≡ Status.done)
      × (s.current_subtask_index + 1 ≡ length s.subtasks)
      × (outcome_of s.execution ≡ some Outcome.confirmed))
    ⊎ ((s.status ≡ Status.failed) × (outcome_of s.execution ≡ some Outcome.failed))

abbrev pub Ends : Result Failure AgentState → Type 0
Ends (ok s) = Settled s
Ends (err (raised e)) = Unit
Ends (err recursion_limit) = ⊥

-- What is known at a node: the executor and the critic have a current subtask, and the end is settled.
abbrev Ready : Node → AgentState → Type 0
Ready executor_node s = s.current_subtask_index < length s.subtasks
Ready critic_node s = s.current_subtask_index < length s.subtasks
Ready end_node s = Settled s
Ready _ s = Unit

abbrev Falls : ℕ → Node → AgentState → Result String AgentState → Type 0
Falls bound node s r =
    (s' : AgentState)
    → r ≡ ok s'
    → Ready (next node s'.status) s' × (cost bound (next node s'.status) s' < cost bound node s)

-- The retries still left cost no more than all of them.
retries_cost : (p m r : ℕ) → p + (m - r) * p ≤ (m + 1) * p
retries_cost p m r = let e : m - r ≤ m = omega arith in omega (arith, mul-le-mul_right p e)

add_one_times : (a p : ℕ) → a * p + p ≡ (a + 1) * p
add_one_times a p = omega arith

-- One retry less is one plan's steps less.
retry_lowers :
    (bound m r : ℕ)
    → r < m
    → (m - (r + 1)) * plan_steps bound + plan_steps bound ≡ (m - r) * plan_steps bound
retry_lowers bound m r h =
    add_one_times (m - (r + 1)) (plan_steps bound)
    ∙ ap (λ k. k * plan_steps bound) (let e : m - (r + 1) + 1 ≡ m - r = omega arith in e)

module _ (env : Env) (bound : ℕ) (plans : ShortPlans env bound) where
  planner-Falls : (s : AgentState) (tr : Trace) → Falls bound planner_node s (planner env s tr).0
  unfolding planner
  planner-Falls s tr s' e = elim (Result-cases (env.complete tr s.user_request s.context)) [
    | inr (x, failed) ↦ ground arith
    | inl (response, answered) ↦ elim (Result-cases (parse_subtasks env response)) [
      | inr (x, failed) ↦ ground arith
      | inl (plan, parsed) ↦
          ground (arith, plans.short tr s.user_request s.context response plan answered parsed)
    ]
  ]

  memory-Falls : (s : AgentState) (tr : Trace) → Falls bound memory_node s (memory env s tr).0
  unfolding memory
  memory-Falls s tr s' e = ground arith

  simulator-Falls :
      (s : AgentState) (tr : Trace) → Falls bound simulator_node s (simulator env s tr).0
  unfolding simulator
  simulator-Falls s tr s' e = elim (Option-cases (get_elem? s.subtasks s.current_subtask_index)) [
    | inl beyond ↦ ground arith
    | inr (t, found) ↦ ground (arith, get_elem?-lt s.subtasks s.current_subtask_index found)
  ]

  executor-Falls :
      (s : AgentState) (tr : Trace)
      → Ready executor_node s
      → Falls bound executor_node s (executor env s tr).0
  unfolding executor
  executor-Falls s tr h s' e = ground arith

  critic-Falls :
      (s : AgentState) (tr : Trace)
      → Ready critic_node s
      → Falls bound critic_node s (critic env s tr).0
  unfolding critic
  critic-Falls s tr h s' e = elim (Option-cases s.execution) [
    | inl missing ↦ ground arith
    | inr (x, found) ↦ ground (arith, retry_lowers bound s.max_retries s.retry_count)
  ]

  run_node-Falls :
      (node : Node) (s : AgentState) (tr : Trace)
      → node ≢ end_node
      → Ready node s
      → Falls bound node s (run_node env node s tr).0
  run_node-Falls planner_node s tr n h = planner-Falls s tr
  run_node-Falls memory_node s tr n h = memory-Falls s tr
  run_node-Falls simulator_node s tr n h = simulator-Falls s tr
  run_node-Falls executor_node s tr n h = executor-Falls s tr h
  run_node-Falls critic_node s tr n h = critic-Falls s tr h
  run_node-Falls end_node s tr n h = absurd (n refl)

  run_from-Ends_at :
      (limit : ℕ) (node : Node) (s : AgentState) (tr : Trace)
      → Ready node s
      → cost bound node s ≤ limit
      → Ends (run_from env limit node s tr).0
  unfolding run_from
  run_from-Ends_at limit end_node s tr h c = h
  run_from-Ends_at zero node s tr h c = absurd (omega arith)
  run_from-Ends_at (suc limit) node s tr h c = elim (Result-cases (run_node env node s tr).0) [
    | inr (e, failed) ↦ rw failed tt
    | inl (s', returned) ↦
        let falls = run_node-Falls node s tr (λ e. cc) h s' returned in
        rw returned (
          run_from-Ends_at limit (next node s'.status) s' (run_node env node s tr).1 falls.0
            (omega (arith, falls.1, c)))
  ]

  -- With plans of at most `bound` subtasks and a limit of `(3 + 3 * bound) * (max_retries + 1)` steps
  -- the limit is never met from the planner on: the run ends with a node's exception, or done after
  -- the last subtask of its plan was confirmed, or failed with an execution that failed.
  pub run_from-Ends :
      (limit : ℕ) (s : AgentState) (tr : Trace)
      → (s.max_retries + 1) * plan_steps bound ≤ limit
      → Ends (run_from env limit planner_node s tr).0
  run_from-Ends limit s tr c =
      run_from-Ends_at limit planner_node s tr tt
        (omega (arith, retries_cost (plan_steps bound) s.max_retries s.retry_count, c))
