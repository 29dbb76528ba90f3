-- ===== src/Orchestrator/Tests.antt =====
-- Tests of the orchestrator, and its theorems at concrete inputs: in local mode, and with a router
-- whose confirmed transaction cannot be recorded.
use big_x.Base.{◌+◌, ◌-◌, ◌≤◌, true, some, [], ◌∷◌, arith}
use big_x.Base.Json.{text, obj, end, field, num}
use big_x.Base.Exec.{err}
use big_x.Orchestrator.State.{SubTask, AgentState}
use big_x.Orchestrator.World.{Env}
use big_x.Orchestrator.Planner.{parse_subtasks, read_plan, read_items}
use big_x.Orchestrator.Graph.{planner_node, run_from, build_initial_state}
use big_x.Orchestrator.Local.{local_env}
use big_x.Orchestrator.Justified.{IsJustified, run_from-IsJustified}
use big_x.Orchestrator.Termination.{ShortPlans, Ends, run_from-Ends}
use big_x.Orchestrator.Retries.{completions, completions-run_from}
use big_x.Orchestrator.Endpoint.{local_plan}

abbrev sample_env : Env
sample_env = local_env (λ response. some (local_plan "gas price"))

abbrev sample_state : AgentState
sample_state = build_initial_state "task" "7" "gas price" 2

run_from-IsJustified_example : IsJustified (run_from sample_env 25 planner_node sample_state []).1
run_from-IsJustified_example = run_from-IsJustified sample_env 25 sample_state [] tt

sample_plans : ShortPlans sample_env 1
unfolding local_env parse_subtasks read_plan read_items
sample_plans = record { short = λ tr request context response plan e p. ground arith }

run_from-Ends_example : Ends (run_from sample_env 25 planner_node sample_state []).0
run_from-Ends_example =
    run_from-Ends sample_env 1 sample_plans 25 sample_state []
      (unfold build_initial_state in omega arith)

completions-run_from_example :
    completions (run_from sample_env 25 planner_node sample_state []).1
    ≤ 0 + (1 + (sample_state.max_retries - sample_state.retry_count))
completions-run_from_example = completions-run_from sample_env 25 sample_state []

abbrev bridge : SubTask
bridge = record {
  tool = "bridge_tool";
  action = some (text "bridge");
  params = some (obj (field "amount_usd" (num 250) end));
}

-- The policy engine does not answer when the spend is reported.
abbrev silent_env : Env
silent_env = record sample_env { record_spend = λ tr agent_id value. err "timeout" }

abbrev bridging : AgentState
bridging = record sample_state {
  subtasks = bridge ∷ [];
  simulation = some (record {
    estimated_gas = 0;
    estimated_slippage_bps = 0;
    risk_score = 40;
    passed_policy_check = true;
    policy_reason = "";
  });
}
