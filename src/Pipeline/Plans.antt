-- ===== src/Pipeline/Plans.antt =====
-- Proofs about the plans that the pipeline's planner accepts.
use big_x.Base.{
  ◌≤◌, ◌≡◌, refl, arith, String, Bool, true, false, Option, none, some, List, All, length, inl, inr,
  Bool-cases, ap, subst, ◌&&◌, not,
}
use big_x.Base.Text.{elem}
use big_x.Base.Json.{Json, Items, Fields, text, arr, obj, nil, cons, null, bool, num, end, get}
use big_x.Base.Exec.{Result, ok, err}
use big_x.Orchestrator.State.{SubTask}
use big_x.Orchestrator.Planner.{available_tools}
use big_x.Pipeline.World.{Exc, Env}
use big_x.Pipeline.Planner.{
  valid_fields, text_value, params_value, at_least_one, subtasks_of, planner_output_model, reworded,
  sub_task_model, sub_task_models, cons_model, parse_and_validate,
}

and_not : {b c : Bool} → b && not c ≡ true → (b ≡ true) × (c ≡ false)
and_not e = ground arith

module _ (env : Env) where
  -- A known tool, an action that is not blank, and parameters that are an object.
  abbrev pub IsValid : SubTask → Type 0
  IsValid t =
      (elem t.tool available_tools ≡ true)
      × ((v : String) × (t.action ≡ some (text v)) × (env.is_blank v ≡ false))
      × ((fs : Fields) × (t.params ≡ some (obj fs)))

  abbrev ValidTask : Result Exc SubTask → Type 0
  ValidTask (ok t) = IsValid t
  ValidTask (err e) = Unit

  abbrev ValidTasks : Result Exc (List SubTask) → Type 0
  ValidTasks (ok ts) = All IsValid ts
  ValidTasks (err e) = Unit

  -- A plan: one subtask at least.
  abbrev pub IsPlan : List SubTask → Type 0
  IsPlan ts = (1 ≤ length ts) × All IsValid ts

  abbrev ValidPlan : Result Exc (List SubTask) → Type 0
  ValidPlan (ok ts) = IsPlan ts
  ValidPlan (err e) = Unit

  action_of : (o : Option Json) {v : String} → text_value o ≡ some v → o ≡ some (text v)
  action_of (some (text t)) e = ground arith
  action_of (some null) e = absurd (ground arith)
  action_of (some (bool b)) e = absurd (ground arith)
  action_of (some (num n)) e = absurd (ground arith)
  action_of (some (arr js)) e = absurd (ground arith)
  action_of (some (obj fs)) e = absurd (ground arith)
  action_of none e = absurd (ground arith)

  valid_fields-Valid :
      (tool action : Option String) (params : Option Json)
      → ((p : Json) → params ≡ some p → (fs : Fields) × (p ≡ obj fs))
      → ValidTask (valid_fields env tool action params)
  valid_fields-Valid (some tool) (some action) (some params) h =
      elim (Bool-cases (elem tool available_tools && not (env.is_blank action))) [
        | inl accepted ↦
            rw (accepted, valid_fields)
              ((
                (and_not accepted).0,
                (action, refl, (and_not accepted).1),
                ((h params refl).0, ap some (h params refl).1),
              ))
        | inr refused ↦ rw (refused, valid_fields) tt
      ]
  valid_fields-Valid none action params h = tt
  valid_fields-Valid (some tool) none params h = tt
  valid_fields-Valid (some tool) (some action) none h = tt

  params_value-obj :
      (o : Option Json) (p : Json) → params_value o ≡ some p → (fs : Fields) × (p ≡ obj fs)
  params_value-obj none p e = (end, ground arith)
  params_value-obj (some (obj fs)) p e = (fs, ground arith)
  params_value-obj (some (text t)) p e = absurd (ground arith)
  params_value-obj (some null) p e = absurd (ground arith)
  params_value-obj (some (bool b)) p e = absurd (ground arith)
  params_value-obj (some (num n)) p e = absurd (ground arith)
  params_value-obj (some (arr js)) p e = absurd (ground arith)

  sub_task_model-Valid : (j : Json) → ValidTask (sub_task_model env j)
  sub_task_model-Valid (obj fs) =
      valid_fields-Valid (text_value (get fs "tool")) (text_value (get fs "action"))
        (params_value (get fs "params")) (params_value-obj (get fs "params"))
  sub_task_model-Valid _ = tt

  cons_model-Valid :
      (r : Result Exc SubTask) (rest : Result Exc (List SubTask))
      → ValidTask r
      → ValidTasks rest
      → ValidTasks (cons_model env r rest)
  cons_model-Valid (err e) rest h k = tt
  cons_model-Valid (ok t) (err e) h k = tt
  cons_model-Valid (ok t) (ok ts) h k = (h, k)

  sub_task_models-Valid : (js : Items) → ValidTasks (sub_task_models env js)
  unfolding sub_task_models
  sub_task_models-Valid nil = tt
  sub_task_models-Valid (cons j js) =
      cons_model-Valid (sub_task_model env j) (sub_task_models env js) (sub_task_model-Valid j)
        (sub_task_models-Valid js)

  cons_model-Plan :
      (r : Result Exc SubTask) (rest : Result Exc (List SubTask))
      → ValidTask r
      → ValidTasks rest
      → ValidPlan (cons_model env r rest)
  cons_model-Plan (err e) rest h k = tt
  cons_model-Plan (ok t) (err e) h k = tt
  cons_model-Plan (ok t) (ok ts) h k = (omega arith, (h, k))

  at_least_one-Plan : (js : Items) → ValidPlan (at_least_one env js)
  unfolding sub_task_models
  at_least_one-Plan nil = tt
  at_least_one-Plan (cons j js) =
      cons_model-Plan (sub_task_model env j) (sub_task_models env js) (sub_task_model-Valid j)
        (sub_task_models-Valid js)

  subtasks_of-Plan : (o : Option Json) → ValidPlan (subtasks_of env o)
  subtasks_of-Plan (some (arr js)) = at_least_one-Plan js
  subtasks_of-Plan _ = tt

  planner_output_model-Plan : (o : Option Json) → ValidPlan (planner_output_model env o)
  planner_output_model-Plan (some (obj fs)) = subtasks_of-Plan (get fs "subtasks")
  planner_output_model-Plan _ = tt

  reworded-Plan :
      (e : String) (r : Result Exc (List SubTask)) → ValidPlan r → ValidPlan (reworded e r)
  reworded-Plan e (ok ts) h = h
  reworded-Plan e (err x) h = tt

  -- Whatever text the LLM returns, a plan that passes the schema has a subtask at least, and each one
  -- names an available tool, an action that is not blank and an object of parameters.
  pub parse_and_validate-IsPlan :
      (response : String) (ts : List SubTask) → parse_and_validate env response ≡ ok ts → IsPlan ts
  unfolding parse_and_validate
  parse_and_validate-IsPlan response ts e = subst ValidPlan e (
      reworded-Plan (env.validation_text response) (planner_output_model env (env.loads response))
        (planner_output_model-Plan (env.loads response)))
