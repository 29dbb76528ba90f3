-- ===== src/Pipeline/Planner.antt =====
-- `PlannerAgent` of contracts/planning_pipeline.py, and the schema of the plan in contracts/schemas.py.
use Prim.Native.String.{◌++◌ as append}
use big_x.Base.{String, Option, none, some, List, [], ◌∷◌, ◌&&◌, not, if◌then◌else◌}
use big_x.Base.Text.{elem}
use big_x.Base.Json
use big_x.Base.Json.{Json, Items, Fields, text, arr, obj, nil, cons, end}
use big_x.Base.Exec.{Result, ok, err, pure, raise, lift, ◌>>=◌, ◌>>◌}
use big_x.Resilience.Cache.{cache_get, cache_set}
use big_x.Orchestrator.State.{SubTask, AgentState, Status}
use big_x.Orchestrator.Planner.{available_tools}
use big_x.Pipeline.World.{
  Exc, planner_parse, capability_denied, transient, Env, Machine, Action, ask, update, catch,
  log_step, no_circuit, retried, planner_role, succeeded, step_failed, completion, agent_read,
  capability_read,
}
use package.text.Mathlib.Text.{◌==◌}

-- `TOOL_REQUIRED_CAPABILITY.get(tool)`
unfoldable pub tool_required_capability : String → Option String
tool_required_capability tool =
    if tool == "swap_tool"
    then some "CAP_SWAP"
    else if tool == "bridge_tool"
    then some "CAP_BRIDGE"
    else if tool == "defi_tool"
    then some "CAP_YIELD_FARM"
    else if tool == "nft_tool"
    then some "CAP_NFT_TRADE"
    else none

abbrev pub text_value : Option Json → Option String
text_value (some (text t)) = some t
text_value _ = none

-- `params`: an object, or the empty one by default
abbrev pub params_value : Option Json → Option Json
params_value none = some (obj end)
params_value (some (obj fs)) = some (obj fs)
params_value (some _) = none

abbrev invalid : {A : Type 0} → Result Exc A
invalid = err (planner_parse "validation error")

abbrev pub set_plan : List SubTask → AgentState → AgentState
set_plan subtasks s = record s {
  subtasks = subtasks;
  current_subtask_index = 0;
  status = Status.simulating;
}

-- `raise PlannerParseError(str(exc))`, with the text of the validation error
abbrev pub reworded : String → Result Exc (List SubTask) → Result Exc (List SubTask)
reworded e (ok ts) = ok ts
reworded e (err _) = err (planner_parse e)

module _ (env : Env) where
  abbrev pub valid_fields : Option String → Option String → Option Json → Result Exc SubTask
  valid_fields (some tool) (some action) (some params) =
      if elem tool available_tools && not (env.is_blank action)
      then ok (record { tool = tool; action = some (text action); params = some params })
      else invalid
  valid_fields _ _ _ = invalid

  -- `SubTaskModel`
  abbrev pub sub_task_model : Json → Result Exc SubTask
  sub_task_model (obj fs) =
      valid_fields (text_value (Json.get fs "tool")) (text_value (Json.get fs "action"))
        (params_value (Json.get fs "params"))
  sub_task_model _ = invalid

  abbrev pub cons_model : Result Exc SubTask → Result Exc (List SubTask) → Result Exc (List SubTask)
  cons_model (err e) rest = err e
  cons_model (ok t) (err e) = err e
  cons_model (ok t) (ok ts) = ok (t ∷ ts)

  unfoldable pub sub_task_models : Items → Result Exc (List SubTask)
  sub_task_models nil = ok []
  sub_task_models (cons j js) = cons_model (sub_task_model j) (sub_task_models js)

  abbrev pub at_least_one : Items → Result Exc (List SubTask)
  at_least_one nil = invalid
  at_least_one (cons j js) = sub_task_models (cons j js)

  abbrev pub subtasks_of : Option Json → Result Exc (List SubTask)
  subtasks_of (some (arr js)) = at_least_one js
  subtasks_of _ = invalid

  -- `PlannerOutputModel`
  abbrev pub planner_output_model : Option Json → Result Exc (List SubTask)
  planner_output_model (some (obj fs)) = subtasks_of (Json.get fs "subtasks")
  planner_output_model _ = invalid

  -- `_parse_and_validate`
  unfoldable pub parse_and_validate : String → Result Exc (List SubTask)
  parse_and_validate raw_response =
      reworded (env.validation_text raw_response) (planner_output_model (env.loads raw_response))

  abbrev cache_key : String → String
  cache_key agent_id = append "capabilities:" agent_id

  -- The first half of `_check_capabilities`: what the cache has, or the registry's answer, cached.
  unfoldable pub load_capabilities : String → Action (Unit {0})
  load_capabilities agent_id m =
      let (found, cache) = cache_get (env.time m.trace) (cache_key agent_id) m.capability_cache in
      let m' : Machine = record m { capability_cache = cache } in
      elim found [
        | some c ↦ (ok tt, m')
        | none ↦
            (do
              capabilities ← ask (λ tr. env.get_agent tr agent_id) (λ _. agent_read)
              λ n. (
                ok tt,
                record n {
                  capability_cache =
                      cache_set (env.time n.trace) (cache_key agent_id) capabilities
                        n.capability_cache;
                },
              ))
              m'
      ]

  -- What the look-up finds is not used; it may raise.
  abbrev pub find_function : String → Action (Unit {0})
  find_function required m = (env.find_function m.trace required, m)

  abbrev pub require_capability : String → Option String → Action (Unit {0})
  require_capability agent_id none = pure tt
  require_capability agent_id (some required) = do
    find_function required
    has ← ask (λ tr. env.has_capability tr agent_id required) (capability_read agent_id required)
    if has then pure tt else raise (capability_denied agent_id required)

  -- The loop over the subtasks.
  unfoldable pub require_capabilities : String → List SubTask → Action (Unit {0})
  require_capabilities agent_id [] = pure tt
  require_capabilities agent_id (t ∷ ts) = do
    require_capability agent_id (tool_required_capability t.tool)
    require_capabilities agent_id ts

  -- `_check_capabilities`
  abbrev pub check_capabilities : String → List SubTask → Action (Unit {0})
  check_capabilities agent_id subtasks = do
    load_capabilities agent_id
    require_capabilities agent_id subtasks

  -- `except TransientDependencyError`; other exceptions pass.
  abbrev pub give_up : Exc → Action String
  give_up (transient e) = log_step env planner_role (some step_failed) >> raise (transient e)
  give_up e = raise e

  abbrev pub ask_plan : AgentState → Action String
  ask_plan s =
      catch
        (retried (no_circuit env) 3
          (ask (λ tr. env.complete tr s.user_request s.context) (λ _. completion)))
        give_up

  -- `PlannerAgent.run`
  unfoldable pub run_planner : Action (Unit {0})
  run_planner m =
      (do
        response ← ask_plan m.state
        subtasks ← lift (parse_and_validate response)
        check_capabilities m.state.agent_id subtasks
        update (set_plan subtasks)
        log_step env planner_role (some succeeded))
        m
