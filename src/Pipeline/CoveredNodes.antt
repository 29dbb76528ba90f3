-- ===== src/Pipeline/CoveredNodes.antt =====
-- Proofs that the simulator, the executor and the critic keep the pipeline's dispatches covered.
use big_x.Base.{
  ℕ, ◌≡◌, refl, sym, subst, inl, inr, String, Bool, true, false, Option-cases, some, arith,
  get_elem?,
}
use big_x.Base.Exec.{Result, ok, err, pure}
use big_x.Base.Triple.{Post, Triple, Keeps, Keeps-pure, Keeps-raise, Keeps-or_raise, Triple-bind}
use big_x.Orchestrator.State.{SubTask, AgentState, ExecutionResult}
use big_x.Orchestrator.Executor.{is_passed, failure, receipt_result}
use big_x.Orchestrator.World.{Call}
use big_x.Pipeline.World.{
  Exc, text_of, policy_rejected, Event, Trace, Env, Machine, ask, update, log_step, checked,
  dispatched, step_written, simulator_role, executor_role, critic_role, succeeded, step_failed,
  gas_estimated, receipt_awaited, spend_recorded, by_policy, by_chain, by_execution, no_circuit,
}
use big_x.Pipeline.Rules.{
  Triple-ask, Keeps-ask, Triple-retried, Keeps-retried, Keeps-catch, Keeps-update, Keeps-log_step,
}
use big_x.Pipeline.Simulator.{run_simulator, resolve, set_simulation, verdict_result, finish, risk}
use big_x.Pipeline.Executor.{
  run_executor, submit, execute, step_of, report, amount_of, set_execution,
}
use big_x.Pipeline.Critic.{run_critic, set_review, log_review, review, step_status}
use big_x.Pipeline.Covered.{
  IsPass, Passed, Licensed, Known, Inv, Allowed, Verdict, Inv-log, Inv-by_policy, Inv-by_chain,
  Verdict-by_policy, Allowed-no_circuit, Allowed-by_chain, Allowed-by_execution, Inv-log_step,
  Inv-ask,
}

module _ (a : String) (env : Env) where
  Inv-resolve : (who : String) (t : SubTask) → Keeps (Inv a) (resolve env who t)
  unfolding resolve
  Inv-resolve who t = record { at = λ m h. ground arith }

  Inv-risk : (t : SubTask) → Keeps (Inv a) (risk t)
  Inv-risk t = record { at = λ m h. ground arith }

  of_verdict :
      (who : String) (call : Call) (v : Bool × String)
      → who ≡ a
      → v.0 ≡ true
      → IsPass a (checked who call (ok v))
  of_verdict who call (true, reason) same p = sym same
  of_verdict who call (false, reason) same p = absurd (ground arith)

  -- The policy's verdict, which the log shows if it is a pass.
  Verdict-check :
      (who : String) (call : Call)
      → who ≡ a
      → Triple
          (Inv a)
          (Inv a)
          (ask (λ tr. env.check_action tr who call) (checked who call))
          (Verdict a)
  Verdict-check who call same =
      Triple-ask (Inv a) (Verdict a) (λ tr. env.check_action tr who call) (checked who call)
        (λ m v h answered. (
          Inv-log a (checked who call (ok v)) m tt h,
          λ passed. inl (of_verdict who call v same passed),
        ))
        (λ m e h. Inv-log a (checked who call (err e)) m tt h)

  Verdict-update :
      (t : SubTask) (gas score : ℕ) (v : Bool × String)
      → Triple
          (Inv a)
          (Verdict a v)
          (update (set_simulation (verdict_result t gas score v)))
          (λ _. Inv a)
  Verdict-update t gas score v = record { at = λ m h. (h.0.0, (h.0.1.0, h.1)) }

  Inv-finish : (passed : Bool) (reason : String) → Keeps (Inv a) (finish env passed reason)
  Inv-finish true reason = Inv-log_step a env simulator_role (some succeeded)
  Inv-finish false reason =
      Triple-bind _ _ (Inv-log_step a env simulator_role (some step_failed))
        (λ _. Keeps-raise (Inv a) (policy_rejected reason))

  pub Inv-run_simulator : Keeps (Inv a) (run_simulator env)
  unfolding run_simulator
  Inv-run_simulator = record {
    at = λ m h.
        (Triple-bind _ _
            (Keeps-or_raise (Inv a) (get_elem? m.state.subtasks m.state.current_subtask_index) _)
            (λ t. Triple-bind _ _ (Inv-resolve m.state.agent_id t) (λ call.
              Triple-bind _ _
                (Keeps-retried (Inv a) (by_chain env) 3 _ (Inv-by_chain a env)
                  (Inv-ask a env _ gas_estimated (λ _. tt)))
                (λ gas. Triple-bind _ _ (Inv-risk t) (λ score.
                  Triple-bind _ _
                    (Triple-retried (Inv a) (by_policy env) 3 _ (Verdict a) (Inv-by_policy a env)
                      (Verdict-by_policy a env) (Verdict-check m.state.agent_id call h.1.0))
                    (λ v.
                      Triple-bind _ _ (Verdict-update t gas score v)
                        (λ _. Inv-finish v.0 v.1))))))).at
          m h;
  }

  Allowed-ask :
      {A : Type 0} (f : Trace → Result Exc A) (event : Result Exc A → Event)
      → ((r : Result Exc A) (tr : Trace) → Passed a tr → Licensed (event r) tr)
      → Keeps (Allowed a) (ask f event)
  Allowed-ask f event free =
      Keeps-ask (Allowed a) f event
        (λ m r h. (Inv-log a (event r) m (free r m.trace h.1) h.0, inr h.1))

  Allowed-amount : (t : SubTask) → Keeps (Allowed a) (amount_of env t)
  Allowed-amount t = record { at = λ m h. ground arith }

  Allowed-report : (t : SubTask) (success : Bool) → Keeps (Allowed a) (report env a t success)
  Allowed-report t false = Keeps-pure (Allowed a) tt
  Allowed-report t true = Triple-bind _ _ (Allowed-amount t) (λ amount.
      Keeps-retried (Allowed a) (no_circuit env) 2 _ (Allowed-no_circuit a env)
        (Allowed-ask (λ tr. env.record_spend tr a amount) (spend_recorded a amount) (λ r tr p. tt)))

  Allowed-submit : (t : SubTask) → Keeps (Allowed a) (submit env a t)
  unfolding submit
  Allowed-submit t =
      Triple-bind _ _
        (Keeps-retried (Allowed a) (by_execution env) 2 _ (Allowed-by_execution a env)
          (Allowed-ask (λ tr. env.dispatch tr a t) (dispatched a t) (λ r tr p. p)))
        (λ tx_hash.
          Triple-bind _ _
            (Keeps-retried (Allowed a) (by_chain env) 3 _ (Allowed-by_chain a env) (
              Allowed-ask (λ tr. env.wait_for_receipt tr tx_hash) (receipt_awaited tx_hash)
                (λ r tr p. tt)))
            (λ receipt.
              Triple-bind _ _ (Allowed-report t receipt.success)
                (λ _. Keeps-pure (Allowed a) (receipt_result tx_hash receipt))))

  Inv-Allowed :
      {A : Type 0} (r : Result Exc A × Machine)
      → Post (Allowed a) (λ _. Allowed a) r
      → Post (Inv a) (λ _. Inv a) r
  Inv-Allowed (ok x, m) h = h.0
  Inv-Allowed (err e, m) h = h.0

  Allowed-submit_for : (who : String) (t : SubTask) → who ≡ a → Keeps (Allowed a) (submit env who t)
  Allowed-submit_for who t same =
      subst (λ w. Keeps (Allowed a) (submit env w t)) (sym same) (Allowed-submit t)

  Allowed-set_execution : (r : ExecutionResult) → Keeps (Allowed a) (update (set_execution r))
  Allowed-set_execution r = record { at = λ m h. h }

  Allowed-log_step : (role : _) (st : _) → Keeps (Allowed a) (log_step env role st)
  Allowed-log_step role st =
      Keeps-log_step (Allowed a) env role st
        (λ m v h. (Inv-log a (step_written role v) m tt h.0, inr h.1))

  decide-Known :
      (x : ExecutionResult) (s : AgentState) (tr : Trace)
      → Known a s tr
      → Known a (set_review x s) tr
  unfolding review
  decide-Known x s tr h = ground arith

  -- The executor with the simulation's verdict, at a machine where it stands for a check.
  Inv-execute :
      (s : AgentState) (t : SubTask) (passed : Bool)
      → s.agent_id ≡ a
      → Triple
          (Inv a)
          (λ m. Inv a m × (passed ≡ true → Passed a m.trace))
          (execute env s t passed)
          (λ _. Inv a)
  Inv-execute s t false same = record { at = λ m h. h.0 }
  Inv-execute s t true same = record {
    at = λ m h. Inv-Allowed (execute env s t true m) (
        (Triple-bind _ _
            (Keeps-catch (Allowed a) (submit env s.agent_id t) (λ e. pure (failure (text_of e)))
              (Allowed-submit_for s.agent_id t same) (λ e. Keeps-pure (Allowed a) _))
            (λ result.
              Triple-bind _ _ (Allowed-set_execution result)
                (λ _. Allowed-log_step executor_role (some (step_of result.status))))).at
          m (h.0, h.1 refl));
  }

  pub Inv-run_executor : Keeps (Inv a) (run_executor env)
  unfolding run_executor
  Inv-run_executor = record {
    at = λ m h. elim (Option-cases (get_elem? m.state.subtasks m.state.current_subtask_index)) [
      | inl beyond ↦ rw beyond h
      | inr (t, found) ↦
          rw found ((Inv-execute m.state t (is_passed m.state.simulation) h.1.0).at m (h, h.1.1))
    ];
  }

  Inv-log_review : Keeps (Inv a) (log_review env)
  Inv-log_review = record {
    at = λ m h. (Inv-log_step a env critic_role (step_status m.state.status)).at m h;
  }

  pub Inv-run_critic : Keeps (Inv a) (run_critic env)
  unfolding run_critic
  Inv-run_critic = record {
    at = λ m h.
        (Triple-bind _ _ (Keeps-or_raise (Inv a) m.state.execution _) (λ x.
            Triple-bind _ _
              (Keeps-update (Inv a) (set_review x)
                (λ n g. (g.0, decide-Known x n.state n.trace g.1)))
              (λ _. Inv-log_review))).at
          m h;
  }
