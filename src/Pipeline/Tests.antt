-- ===== src/Pipeline/Tests.antt =====
-- Tests of the pipeline, and its theorems at concrete inputs.
use big_x.Base.{◌≡◌, refl, true, false, some, [], ◌∷◌, length}
use big_x.Base.Json.{Json, text, arr, cons, nil, obj, end, field}
use big_x.Base.Exec.{ok}
use big_x.Resilience.Breaker.{new_breaker, allow, record_success}
use big_x.Resilience.Retry.{with_retry, retry_loop}
use big_x.Resilience.Cache.{cache_get, cache_set, lookup}
use big_x.Orchestrator.State.{SubTask}
use big_x.Orchestrator.Graph.{planner_node, simulator_node, build_initial_state}
use big_x.Orchestrator.Simulator.{score_risk, estimate_slippage}
use big_x.Pipeline.World.{Env, Machine, retried}
use big_x.Pipeline.Planner.{
  run_planner, sub_task_models, parse_and_validate, tool_required_capability, load_capabilities,
  require_capabilities,
}
use big_x.Pipeline.Memory.{run_memory}
use big_x.Pipeline.Simulator.{run_simulator, resolve}
use big_x.Pipeline.Executor.{run_executor, submit}
use big_x.Pipeline.Critic.{run_critic, review}
use big_x.Pipeline.Graph.{wrapped, run_graph}
use big_x.Pipeline.Covered.{IsCovered}
use big_x.Pipeline.CoveredRun.{run_graph-IsCovered}
use big_x.Pipeline.Plans.{IsPlan, parse_and_validate-IsPlan}
use big_x.Pipeline.Capabilities.{PermittedPlan, run_planner-PermittedPlan}

abbrev plan : Json
plan = obj (
    field "subtasks"
      (arr (
        cons (obj (field "tool" (text "price_feed_tool") (field "action" (text "inspect") end)))
          nil))
      end)

abbrev sample_env : Env
sample_env = record {
  time = λ tr. length tr;
  loads = λ response. some plan;
  validation_text = λ v. v;
  is_blank = λ v. false;
  complete = λ tr request context. ok "answer";
  get_agent = λ tr agent_id. ok 0;
  find_function = λ tr required. ok tt;
  has_capability = λ tr agent_id required. ok true;
  get_portfolio = λ tr agent_id. ok (obj end);
  recent_history = λ tr agent_id n. ok [];
  embed = λ tr query. ok [];
  query = λ tr embedding k. ok [];
  is_registered = λ tool. true;
  build_call = λ tr agent_id t. ok (record { calldata = "0x"; value = 0; target = "0x0" });
  estimate_gas = λ tr call. ok 21000;
  check_action = λ tr agent_id call. ok (true, "allowed");
  dispatch = λ tr agent_id t. ok "0xhash";
  wait_for_receipt = λ tr tx_hash. ok (record { success = true; gas_used = 21000 });
  record_spend = λ tr agent_id amount. ok tt;
  write_step = λ tr role st. true;
}

abbrev start : Machine
start = record {
  state = build_initial_state "task" "7" "gas price" 2;
  trace = [];
  policy_circuit = new_breaker 5 30;
  chain_circuit = new_breaker 5 30;
  execution_circuit = new_breaker 5 30;
  capability_cache = record { ttl = 60; store = [] };
}

abbrev finish : Machine
finish = (run_graph sample_env 25 planner_node start).1

run_graph-IsCovered_example : IsCovered finish.trace
run_graph-IsCovered_example =
    run_graph-IsCovered sample_env 25 start tt (unfold build_initial_state in refl)

-- The run reaches the end.
ended : (run_graph sample_env 25 planner_node start).0 ≡ true
unfolding run_graph wrapped run_planner run_memory run_simulator run_executor run_critic retried
    with_retry retry_loop sub_task_models parse_and_validate tool_required_capability
    load_capabilities require_capabilities resolve submit review score_risk estimate_slippage
    cache_get cache_set allow record_success build_initial_state lookup
ended = refl

-- The log of a run that the limit cuts off before its first node is the one at the start.
cut_off : IsCovered (run_graph sample_env 0 planner_node start).1.trace
unfolding run_graph
cut_off = tt

-- The next subtask has no tool, and the state still has the verdict on the one before.
abbrev toolless_env : Env
toolless_env = record sample_env { is_registered = λ tool. false }

abbrev stale : Machine
stale = record start {
  state = record start.state {
    subtasks =
        record { tool = "nft_tool"; action = some (text "buy"); params = some (obj end) } ∷ [];
    simulation = some (record {
      estimated_gas = 0;
      estimated_slippage_bps = 0;
      risk_score = 10;
      passed_policy_check = true;
      policy_reason = "";
    });
  };
}

abbrev unsimulated : Machine
unsimulated = wrapped toolless_env simulator_node stale

-- A swap, for which the planner asks the registry.
abbrev swap_env : Env
swap_env = record sample_env {
  loads = λ response. some (
      obj (
        field "subtasks"
          (arr
            (cons (obj (field "tool" (text "swap_tool") (field "action" (text "swap") end))) nil))
          end));
}

abbrev swap : SubTask
swap = record { tool = "swap_tool"; action = some (text "swap"); params = some (obj end) }

parse_and_validate-IsPlan_example : IsPlan swap_env (swap ∷ [])
unfolding parse_and_validate sub_task_models
parse_and_validate-IsPlan_example = parse_and_validate-IsPlan swap_env "answer" (swap ∷ []) refl

run_planner-PermittedPlan_example : PermittedPlan swap_env "7" (run_planner swap_env start).1
unfolding run_planner retried with_retry retry_loop sub_task_models parse_and_validate
    tool_required_capability load_capabilities require_capabilities cache_get cache_set lookup
    build_initial_state
run_planner-PermittedPlan_example =
    run_planner-PermittedPlan swap_env start (run_planner swap_env start).1 refl
