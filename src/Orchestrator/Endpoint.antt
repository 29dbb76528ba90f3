-- ===== src/Orchestrator/Endpoint.antt =====
-- Proofs about the endpoint: what it answers in local mode when the
-- local LLM's answer is read as JSON.
use big_x.Base.{String, ◌≡◌, true, Option, some, [], arith}
use big_x.Base.Json.{Json, text, arr, obj, nil, cons, end, field}
use big_x.Orchestrator.State.{Status}
use big_x.Orchestrator.Planner.{planner, parse_subtasks, read_plan, read_items}
use big_x.Orchestrator.Memory.{memory}
use big_x.Orchestrator.Simulator.{simulator, score_risk}
use big_x.Orchestrator.Executor.{executor, attempt}
use big_x.Orchestrator.Critic.{critic}
use big_x.Orchestrator.Graph.{run_from, build_initial_state}
use big_x.Orchestrator.Local.{local_env, local_response, without_quotes}
use big_x.Orchestrator.Service.{handle_message, summarize, message, completed}

-- What `local_response` is the text of.
abbrev pub local_plan : String → Json
local_plan user = arr (
    cons
      (obj (
        field "tool" (text "price_feed_tool") (
          field "action" (text "inspect")
            (field "params" (obj (field "query" (text (without_quotes user)) end)) end))))
      nil)

-- In local mode, on LangGraph's default of 25 steps, a message to a ready service completes its one
-- step if the local LLM's answer, which holds the message unescaped, is read as the JSON that it is
-- meant to be.
pub handle_message_local :
    (loads : String → Option Json) (task_id agent_id user : String)
    → loads (local_response user) ≡ some (local_plan user)
    → (handle_message (local_env loads) 25 true task_id agent_id user []).0
      ≡ message task_id Status.done (completed 1)
unfolding handle_message run_from build_initial_state local_env planner parse_subtasks read_plan
    read_items memory simulator score_risk executor attempt critic summarize
handle_message_local loads task_id agent_id user parsed = ground arith
