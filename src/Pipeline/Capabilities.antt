-- ===== src/Pipeline/Capabilities.antt =====
-- Proofs that the pipeline's planner hands on only plans whose tools the agent may use.
use big_x.Base.{
  ◌≡◌, refl, String, true, false, Option, none, some, List, [], ◌∷◌, All, inl, inr, ◌⊎◌, subst,
  Bool-cases,
}
use big_x.Base.Exec.{Result, ok, err, Result-cases, lift, ◌>>◌}
use big_x.Base.Triple.{Post, Triple, Triple-bind, Keeps}
use big_x.Orchestrator.State.{SubTask}
use big_x.Pipeline.World.{
  Exc, Env, Event, Trace, Machine, Action, capability_read, planner_role, succeeded, step_written,
  update, log_step,
}
use big_x.Pipeline.Planner.{
  parse_and_validate, tool_required_capability, load_capabilities, require_capability,
  require_capabilities, check_capabilities, set_plan, ask_plan, run_planner,
}

-- Whether an event is the registry's answer that the agent has a capability.
abbrev pub IsGrant : String → String → Event → Type 0
IsGrant a c (capability_read b d (ok true)) = (a ≡ b) × (c ≡ d)
IsGrant a c _ = ⊥

abbrev pub Granted : String → String → Trace → Type 0
Granted a c [] = ⊥
Granted a c (e ∷ tr) = IsGrant a c e ⊎ Granted a c tr

-- A tool that needs a capability has it granted.
abbrev pub IsPermitted : String → Trace → SubTask → Type 0
IsPermitted a tr t = (c : String) → tool_required_capability t.tool ≡ some c → Granted a c tr

All-IsPermitted :
    (a : String) (e : Event) (tr : Trace) (ts : List SubTask)
    → All (IsPermitted a tr) ts
    → All (IsPermitted a (e ∷ tr)) ts
All-IsPermitted a e tr [] h = tt
All-IsPermitted a e tr (t ∷ ts) h = (λ c r. inr (h.0 c r), All-IsPermitted a e tr ts h.1)

abbrev Always : Machine → Type 0
Always m = Unit

Always-keeps :
    {A : Type 0} (Q : A → Machine → Type 0) (r : Result Exc A × Machine)
    → ((a : A) (m : Machine) → Q a m)
    → Post Always Q r
Always-keeps Q (ok a, m) h = h a m
Always-keeps Q (err e, m) h = tt

Always-any : {A : Type 0} (act : Action A) → Keeps Always act
Always-any act = record { at = λ m h. Always-keeps (λ _. Always) (act m) (λ a n. tt) }

both :
    (a : String) (t : SubTask) (ts done : List SubTask) (r : Result Exc (Unit {0}) × Machine)
    → Post Always (λ _ m. All (IsPermitted a m.trace) (t ∷ done) × All (IsPermitted a m.trace) ts) r
    → Post Always (λ _ m. All (IsPermitted a m.trace) done × All (IsPermitted a m.trace) (t ∷ ts)) r
both a t ts done (ok x, m) h = (h.0.1, (h.0.0, h.1))
both a t ts done (err e, m) h = tt

module _ (env : Env) (a : String) where
  require_capability-Permitted :
      (t : SubTask) (o : Option String) (ts : List SubTask)
      → tool_required_capability t.tool ≡ o
      → Triple Always
          (λ m. All (IsPermitted a m.trace) ts)
          (require_capability env a o)
          (λ _ m. All (IsPermitted a m.trace) (t ∷ ts))
  require_capability-Permitted t none ts e = record { at = λ m h. (λ c r. absurd (cc), h) }
  require_capability-Permitted t (some d) ts e = record {
    at = λ m h. elim (Result-cases (env.find_function m.trace d)) [
      | inr (x, raised) ↦ rw raised tt
      | inl (u, found) ↦ elim (Result-cases (env.has_capability m.trace a d)) [
        | inr (x, failed) ↦ rw (found, failed) tt
        | inl (true, answered) ↦
            rw (found, answered)
              ((
                λ c r. inl (refl, cc),
                All-IsPermitted a (capability_read a d (ok true)) m.trace ts h,
              ))
        | inl (false, answered) ↦ rw (found, answered) tt
      ]
    ];
  }

  require_capabilities-Permitted :
      (ts done : List SubTask)
      → Triple Always
          (λ m. All (IsPermitted a m.trace) done)
          (require_capabilities env a ts)
          (λ _ m. All (IsPermitted a m.trace) done × All (IsPermitted a m.trace) ts)
  unfolding require_capabilities
  require_capabilities-Permitted [] done = record { at = λ m h. (h, tt) }
  require_capabilities-Permitted (t ∷ ts) done = record {
    at = λ m h. both a t ts done _ (
        (Triple-bind (require_capability env a (tool_required_capability t.tool)) _
            (require_capability-Permitted t (tool_required_capability t.tool) done refl)
            (λ _. require_capabilities-Permitted ts (t ∷ done))).at
          m h);
  }

  -- The tools of the plan in the state are permitted.
  abbrev pub PermittedPlan : Machine → Type 0
  PermittedPlan m = All (IsPermitted a m.trace) m.state.subtasks

  PermittedPlan-log_step :
      (role : _) (st : _)
      → Triple Always PermittedPlan (log_step env role (some st)) (λ _. PermittedPlan)
  PermittedPlan-log_step role st = record {
    at = λ m h. elim (Bool-cases (env.write_step m.trace role st)) [
      | inl written ↦
          rw written (All-IsPermitted a (step_written role st) m.trace m.state.subtasks h)
      | inr lost ↦ rw lost h
    ];
  }

  -- The second half of the planner.
  adopt-PermittedPlan :
      (ts : List SubTask)
      → Triple Always Always
          (do
            check_capabilities env a ts
            update (set_plan ts)
            log_step env planner_role (some succeeded))
          (λ _. PermittedPlan)
  adopt-PermittedPlan ts =
      Triple-bind _ _
        (Triple-bind _ _ (Always-any (load_capabilities env a))
          (λ _. require_capabilities-Permitted ts []))
        (λ _.
          Triple-bind {Q = λ _. PermittedPlan} (update (set_plan ts)) _ (record { at = λ m h. h.1 })
            (λ _. PermittedPlan-log_step planner_role succeeded))

-- If the planner returns without an exception, then for each subtask of the plan that it left in the
-- state, the registry had answered that the agent has the capability which the subtask's tool needs.
pub run_planner-PermittedPlan :
    (env : Env) (m m' : Machine)
    → run_planner env m ≡ (ok tt, m')
    → PermittedPlan env m.state.agent_id m'
unfolding run_planner
run_planner-PermittedPlan env m m' e =
    subst (Post Always (λ _. PermittedPlan env m.state.agent_id)) e (
      (Triple-bind (ask_plan env m.state) _ (Always-any _) (λ response.
          Triple-bind (lift (parse_and_validate env response)) _ (Always-any _)
            (λ ts. adopt-PermittedPlan env m.state.agent_id ts))).at
        m tt)
