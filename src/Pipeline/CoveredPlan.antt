-- ===== src/Pipeline/CoveredPlan.antt =====
-- Proofs that the planner and the memory node keep the pipeline's dispatches covered.
use big_x.Base.{refl, String, none, some, List, [], ◌∷◌, arith}
use big_x.Base.Triple.{Keeps, Keeps-pure, Keeps-lift, Triple-bind}
use big_x.Orchestrator.State.{SubTask, AgentState}
use big_x.Pipeline.World.{
  Exc, Env, completion, planner_role, memory_role, succeeded, portfolio_read, history_read,
  embedded, queried, no_circuit,
}
use big_x.Pipeline.Rules.{Keeps-retried, Keeps-catch}
use big_x.Pipeline.Planner.{
  give_up, set_plan, run_planner, load_capabilities, require_capability, require_capabilities,
  tool_required_capability, parse_and_validate,
}
use big_x.Pipeline.Memory.{set_context, run_memory, gather, refuse}
use big_x.Pipeline.Covered.{Inv, Keeps-update_other, Inv-no_circuit, Inv-log_step, Inv-ask}

module _ (a : String) (env : Env) where
  Inv-load_capabilities : (who : String) → Keeps (Inv a) (load_capabilities env who)
  unfolding load_capabilities
  Inv-load_capabilities who = record { at = λ m h. ground arith }

  Inv-require_capability : (who : String) (o : _) → Keeps (Inv a) (require_capability env who o)
  Inv-require_capability who none = Keeps-pure (Inv a) tt
  Inv-require_capability who (some r) = record { at = λ m h. ground arith }

  Inv-require_capabilities :
      (who : String) (ts : List SubTask) → Keeps (Inv a) (require_capabilities env who ts)
  unfolding require_capabilities
  Inv-require_capabilities who [] = Keeps-pure (Inv a) tt
  Inv-require_capabilities who (t ∷ ts) =
      Triple-bind (require_capability env who (tool_required_capability t.tool)) _
        (Inv-require_capability who (tool_required_capability t.tool))
        (λ _. Inv-require_capabilities who ts)

  Inv-give_up : (e : Exc) → Keeps (Inv a) (give_up env e)
  Inv-give_up e = record { at = λ m h. ground arith }

  pub Inv-run_planner : Keeps (Inv a) (run_planner env)
  unfolding run_planner
  Inv-run_planner = record {
    at = λ m h.
        (Triple-bind _ _
            (Keeps-catch (Inv a) _ _
              (Keeps-retried (Inv a) (no_circuit env) 3 _ (Inv-no_circuit a env)
                (Inv-ask a env _ completion (λ _. tt)))
              Inv-give_up)
            (λ response.
              Triple-bind _ _ (Keeps-lift (Inv a) (parse_and_validate env response)) (λ subtasks.
                Triple-bind _ _
                  (Triple-bind _ _ (Inv-load_capabilities m.state.agent_id)
                    (λ _. Inv-require_capabilities m.state.agent_id subtasks))
                  (λ _.
                    Triple-bind _ _
                      (Keeps-update_other a (set_plan subtasks) (λ s. refl) (λ s. refl))
                      (λ _. Inv-log_step a env planner_role (some succeeded)))))).at
          m h;
  }

  Inv-gather : (s : AgentState) → Keeps (Inv a) (gather env s)
  Inv-gather s =
      Triple-bind _ _
        (Keeps-retried (Inv a) (no_circuit env) 2 _ (Inv-no_circuit a env)
          (Inv-ask a env _ portfolio_read (λ _. tt)))
        (λ portfolio. Triple-bind _ _ (Inv-ask a env _ history_read (λ _. tt)) (λ history.
          Triple-bind _ _
            (Triple-bind _ _
              (Keeps-retried (Inv a) (no_circuit env) 2 _ (Inv-no_circuit a env)
                (Inv-ask a env _ embedded (λ _. tt)))
              (λ e.
                Keeps-retried (Inv a) (no_circuit env) 2 _ (Inv-no_circuit a env)
                  (Inv-ask a env _ queried (λ _. tt))))
            (λ docs. Keeps-pure (Inv a) _)))

  Inv-refuse : (e : Exc) → Keeps (Inv a) (refuse env e)
  Inv-refuse e = record { at = λ m h. ground arith }

  pub Inv-run_memory : Keeps (Inv a) (run_memory env)
  unfolding run_memory
  Inv-run_memory = record {
    at = λ m h.
        (Triple-bind _ _
            (Keeps-catch (Inv a) (gather env m.state) (refuse env) (Inv-gather m.state) Inv-refuse)
            (λ context.
              Triple-bind _ _ (Keeps-update_other a (set_context context) (λ s. refl) (λ s. refl))
                (λ _. Inv-log_step a env memory_role (some succeeded)))).at
          m h;
  }
