-- ===== src/Orchestrator/Planner.antt =====
-- agents/planner.py: the LLM's answer, read as JSON and tested for unknown tools.
use big_x.Base.{String, Option, none, some, List, [], ◌∷◌, if◌then◌else◌}
use big_x.Base.Text.{elem}
use big_x.Base.Json
use big_x.Base.Json.{Json, Items, Fields, null, bool, num, text, arr, obj, nil, cons, end, field}
use big_x.Base.Exec.{Result, ok, err, pure, lift, ◌>>=◌}
use big_x.Orchestrator.State.{SubTask, AgentState, Status}
use big_x.Orchestrator.World.{Error, Env, Action, ask, completion}

abbrev pub available_tools : List String
available_tools =
    "swap_tool" ∷ "bridge_tool" ∷ "defi_tool" ∷ "nft_tool" ∷ "wallet_tool" ∷ "price_feed_tool" ∷ []

-- `subtask.get("tool") not in AVAILABLE_TOOLS`: a value that is no text is in no list of texts.
abbrev pub tool_of : Option Json → Option String
tool_of (some (text t)) = if elem t available_tools then some t else none
tool_of _ = none

abbrev pub with_tool : Fields → Option String → Result Error SubTask
with_tool fs none = err "Planner referenced unknown tool"
with_tool fs (some t) =
    ok (record { tool = t; action = Json.get fs "action"; params = Json.get fs "params" })

-- One round of the loop over the parsed value. What is no object has no `get`.
abbrev pub read_subtask : Json → Result Error SubTask
read_subtask (obj fs) = with_tool fs (tool_of (Json.get fs "tool"))
read_subtask _ = err "object has no attribute 'get'"

abbrev pub cons_plan :
    Result Error SubTask → Result Error (List SubTask) → Result Error (List SubTask)
cons_plan (err e) rest = err e
cons_plan (ok t) (err e) = err e
cons_plan (ok t) (ok ts) = ok (t ∷ ts)

unfoldable pub read_items : Items → Result Error (List SubTask)
read_items nil = ok []
read_items (cons j js) = cons_plan (read_subtask j) (read_items js)

-- Python iterates over an object's keys and over a text's characters, neither of which has `get`;
-- so an empty one passes for an empty list, and numbers, Booleans and null are not iterable.
unfoldable pub read_plan : Json → Result Error (List SubTask)
read_plan (arr js) = read_items js
read_plan (obj end) = ok []
read_plan (text String.[]) = ok []
read_plan (obj (field k v fs)) = err "'str' object has no attribute 'get'"
read_plan (text (String.◌∷◌ c s)) = err "'str' object has no attribute 'get'"
read_plan null = err "object is not iterable"
read_plan (bool b) = err "object is not iterable"
read_plan (num n) = err "object is not iterable"

-- `_parse_subtasks`
unfoldable pub parse_subtasks : Env → String → Result Error (List SubTask)
parse_subtasks env raw_response = elim (env.loads raw_response) [
  | none ↦ err "Planner failed to produce a valid subtask list"
  | some parsed ↦ read_plan parsed
]

-- `PlannerAgent.run`; the system prompt is a constant.
unfoldable pub planner : Env → AgentState → Action AgentState
planner env s = do
  response ← ask (λ tr. env.complete tr s.user_request s.context) (λ _. completion)
  subtasks ← lift (parse_subtasks env response)
  pure (record s { subtasks = subtasks; current_subtask_index = 0; status = Status.simulating })
