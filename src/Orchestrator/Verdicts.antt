-- ===== src/Orchestrator/Verdicts.antt =====
-- Proofs about single agents: the risk score, the planner's filter, and a submission whose spend
-- could not be recorded.
use big_x.Base.{
  ℕ, ◌+◌, ◌≤◌, ◌<◌, ◌≡◌, refl, sym, ◌∙◌, subst, String, Bool, true, Option, none, some, List, ◌∷◌,
  arith, Option-cases, inl, inr, get_elem?, All, ◌||◌, if◌then◌else◌,
}
use big_x.Base.Text.{elem}
use big_x.Base.Json.{Json, Items, Fields, get, text, arr, obj, nil, cons, end, field}
use big_x.Base.Exec.{Result, ok, err, ◌>>=◌}
use big_x.Orchestrator.State.{SubTask, AgentState, Status}
use big_x.Orchestrator.World.{
  Env, Trace, dispatched, session_opened, receipt_awaited, spend_recorded,
}
use big_x.Orchestrator.Planner.{
  available_tools, tool_of, with_tool, read_subtask, cons_plan, read_items, read_plan,
  parse_subtasks,
}
use big_x.Orchestrator.Simulator.{score_risk}
use big_x.Orchestrator.Executor.{attempt, executor, is_passed, failure, amount_usd}
use big_x.Orchestrator.Critic.{critic, evaluate, is_transient}
use package.text.Mathlib.Text.{◌==◌}
use package.text.Mathlib.TextEquality.{eq_iff}
use mathlib.Core.Bool.{false≢true}

not_both : (t : String) → (t == "bridge_tool") ≡ true → (t == "defi_tool") ≡ true → ⊥
not_both t b d =
    let bd : "bridge_tool" ≡ "defi_tool" =
      sym ((eq_iff t "bridge_tool").0 b) ∙ (eq_iff t "defi_tool").0 d in
    false≢true ((eq_iff "bridge_tool" "defi_tool").1 bd)

-- A risk score, where there is one, is at most 80, so the cap at 100 never bites; it is at most 30
-- for a subtask that is neither a bridge nor a defi action, and at least 40 for a bridge.
pub score_risk_bounds :
    (t : SubTask) (slippage_bps : ℕ) {score : ℕ}
    → score_risk t slippage_bps ≡ ok score
    → (score ≤ (if t.tool == "bridge_tool" || t.tool == "defi_tool" then 80 else 30))
      × ((if t.tool == "bridge_tool" then 40 else 0) ≤ score)
unfolding score_risk
score_risk_bounds t slippage_bps e = ground (arith, not_both t.tool)

-- Each subtask of an accepted plan names one of the available tools.
abbrev pub IsKnown : SubTask → Type 0
IsKnown t = elem t.tool available_tools ≡ true

abbrev KnownSubtask : Result String SubTask → Type 0
KnownSubtask (ok t) = IsKnown t
KnownSubtask (err e) = Unit

abbrev KnownPlan : Result String (List SubTask) → Type 0
KnownPlan (ok plan) = All IsKnown plan
KnownPlan (err e) = Unit

if-some : {b : Bool} {t u : String} → (if b then some t else none) ≡ some u → (b ≡ true) × (t ≡ u)
if-some e = ground arith

tool_of-elem : (o : Option Json) {t : String} → tool_of o ≡ some t → elem t available_tools ≡ true
tool_of-elem (some (text u)) e =
    let (known, same) = if-some e in subst (λ v. elem v available_tools ≡ true) same known
tool_of-elem _ e = cc

with_tool-Known :
    (fs : Fields) (o : Option String)
    → ((t : String) → o ≡ some t → elem t available_tools ≡ true)
    → KnownSubtask (with_tool fs o)
with_tool-Known fs none h = tt
with_tool-Known fs (some t) h = h t refl

read_subtask-Known : (j : Json) → KnownSubtask (read_subtask j)
read_subtask-Known (obj fs) =
    with_tool-Known fs (tool_of (get fs "tool")) (λ t. tool_of-elem (get fs "tool"))
read_subtask-Known _ = tt

cons_plan-Known :
    (r : Result String SubTask) (rest : Result String (List SubTask))
    → KnownSubtask r
    → KnownPlan rest
    → KnownPlan (cons_plan r rest)
cons_plan-Known (err e) rest h k = tt
cons_plan-Known (ok t) (err e) h k = tt
cons_plan-Known (ok t) (ok ts) h k = (h, k)

read_items-Known : (js : Items) → KnownPlan (read_items js)
unfolding read_items
read_items-Known nil = tt
read_items-Known (cons j js) =
    cons_plan-Known (read_subtask j) (read_items js) (read_subtask-Known j) (read_items-Known js)

read_plan-Known : (j : Json) → KnownPlan (read_plan j)
unfolding read_plan
read_plan-Known (arr js) = read_items-Known js
read_plan-Known (obj end) = tt
read_plan-Known (text String.[]) = tt
read_plan-Known (obj (field k v fs)) = tt
read_plan-Known (text (String.◌∷◌ c s)) = tt
read_plan-Known _ = tt

-- Whatever text the LLM returns, a plan that the planner accepts names available tools only.
pub parse_subtasks-IsKnown :
    (env : Env) (response : String) {plan : List SubTask}
    → parse_subtasks env response ≡ ok plan
    → All IsKnown plan
unfolding parse_subtasks
parse_subtasks-IsKnown env response e = elim (Option-cases (env.loads response)) [
  | inl invalid ↦ ground arith
  | inr (j, parsed) ↦ subst KnownPlan (rw (parsed, parse_subtasks) at e) (read_plan-Known j)
]

-- If a subtask was dispatched and its receipt is one of success, but the spend could not be
-- recorded, with an error whose text reads as transient, and a retry is left, then the critic sends
-- the task back to the planner, although the transaction went through.
pub unrecorded_spend_retries :
    (env : Env) (s : AgentState) (t : SubTask) (action amount : Json) (fs : Fields) (h : String)
    (gas : ℕ) (e : String) (tr : Trace)
    → let sent = dispatched s.agent_id t (ok h) ∷ tr in
      let awaited = receipt_awaited h (ok (record { success = true; gas_used = gas })) ∷ sent in
      let unspent = spend_recorded s.agent_id amount (err e) ∷ awaited in
      get_elem? s.subtasks s.current_subtask_index ≡ some t
      → is_passed s.simulation ≡ true
      → t.action ≡ some action
      → t.params ≡ some (obj fs)
      → amount_usd (obj fs) ≡ ok amount
      → env.dispatch tr s.agent_id t.tool action (obj fs) ≡ ok h
      → env.wait_for_receipt sent h ≡ ok (record { success = true; gas_used = gas })
      → env.record_spend awaited s.agent_id amount ≡ err e
      → env.open_session unspent ≡ ok tt
      → is_transient (some e) ≡ true
      → s.retry_count < s.max_retries
      → (executor env s >>= critic env) tr ≡ (
        ok (record s {
          execution = some (failure e);
          critique = some (evaluate (failure e));
          retry_count = s.retry_count + 1;
          status = Status.retrying;
        }),
        session_opened ∷ unspent,
      )
unfolding executor attempt critic evaluate
unrecorded_spend_retries env s t action amount fs h gas e tr found passed ea ep em sent awaited
      unspent opened transient left =
    ground arith
