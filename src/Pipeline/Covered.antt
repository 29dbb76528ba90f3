-- ===== src/Pipeline/Covered.antt =====
-- Proofs about what the pipeline dispatches: an earlier policy check has allowed the agent to act.
use big_x.Base.{◌≡◌, sym, ◌∙◌, ap, ◌⊎◌, inr, String, Bool, true, [], ◌∷◌}
use big_x.Base.Exec.{Result, ok}
use big_x.Base.Triple.{Keeps}
use big_x.Resilience.RetryTriple.{Stable}
use big_x.Orchestrator.State.{AgentState}
use big_x.Orchestrator.Executor.{is_passed}
use big_x.Pipeline.World.{
  Exc, Event, Trace, Env, Machine, ask, log, update, log_step, checked, dispatched, slept,
  step_written, by_policy, by_chain, by_execution, no_circuit,
}
use big_x.Pipeline.Rules.{Keeps-ask, Keeps-update, Keeps-log_step}

-- Whether an event is a policy check that allowed the agent's action.
abbrev pub IsPass : String → Event → Type 0
IsPass a (checked b call (ok (true, reason))) = a ≡ b
IsPass a _ = ⊥

abbrev pub Passed : String → Trace → Type 0
Passed a [] = ⊥
Passed a (e ∷ tr) = IsPass a e ⊎ Passed a tr

abbrev pub Licensed : Event → Trace → Type 0
Licensed (dispatched a t r) tr = Passed a tr
Licensed _ tr = Unit

-- Each dispatch has an earlier policy check that allowed its agent to act.
abbrev pub IsCovered : Trace → Type 0
IsCovered [] = Unit
IsCovered (e ∷ tr) = Licensed e tr × IsCovered tr

-- A simulation that passed comes from a policy check.
abbrev pub Known : String → AgentState → Trace → Type 0
Known a s tr = (s.agent_id ≡ a) × (is_passed s.simulation ≡ true → Passed a tr)

abbrev pub Inv : String → Machine → Type 0
Inv a m = IsCovered m.trace × Known a m.state m.trace

-- With a check that allowed the agent, too.
abbrev pub Allowed : String → Machine → Type 0
Allowed a m = Inv a m × Passed a m.trace

abbrev pub Verdict : String → Bool × String → Machine → Type 0
Verdict a v m = Inv a m × (v.0 ≡ true → Passed a m.trace)

module _ (a : String) where
  pub Inv-log : (e : Event) (m : Machine) → Licensed e m.trace → Inv a m → Inv a (log e m)
  Inv-log e m l h = ((l, h.0), (h.1.0, λ p. inr (h.1.1 p)))

  -- A state change that leaves the agent and the simulation as they are.
  pub Keeps-update_other :
      (f : AgentState → AgentState)
      → ((s : AgentState) → (f s).agent_id ≡ s.agent_id)
      → ((s : AgentState) → (f s).simulation ≡ s.simulation)
      → Keeps (Inv a) (update f)
  Keeps-update_other f same_agent same_simulation = Keeps-update (Inv a) f (λ m h. (
    h.0,
    (same_agent m.state ∙ h.1.0, λ p. h.1.1 (sym (ap is_passed (same_simulation m.state)) ∙ p)),
  ))

  module _ (env : Env) where
    pub Inv-no_circuit : Stable (no_circuit env) (Inv a)
    Inv-no_circuit = record { asleep = λ d m h. Inv-log (slept d) m tt h; reset = λ b m h. h }

    pub Inv-by_policy : Stable (by_policy env) (Inv a)
    Inv-by_policy = record { asleep = λ d m h. Inv-log (slept d) m tt h; reset = λ b m h. h }

    pub Inv-by_chain : Stable (by_chain env) (Inv a)
    Inv-by_chain = record { asleep = λ d m h. Inv-log (slept d) m tt h; reset = λ b m h. h }

    pub Verdict-by_policy : (v : Bool × String) → Stable (by_policy env) (Verdict a v)
    Verdict-by_policy v = record {
      asleep = λ d m h. (Inv-log (slept d) m tt h.0, λ p. inr (h.1 p));
      reset = λ b m h. h;
    }

    pub Allowed-no_circuit : Stable (no_circuit env) (Allowed a)
    Allowed-no_circuit = record {
      asleep = λ d m h. (Inv-log (slept d) m tt h.0, inr h.1);
      reset = λ b m h. h;
    }

    pub Allowed-by_chain : Stable (by_chain env) (Allowed a)
    Allowed-by_chain = record {
      asleep = λ d m h. (Inv-log (slept d) m tt h.0, inr h.1);
      reset = λ b m h. h;
    }

    pub Allowed-by_execution : Stable (by_execution env) (Allowed a)
    Allowed-by_execution = record {
      asleep = λ d m h. (Inv-log (slept d) m tt h.0, inr h.1);
      reset = λ b m h. h;
    }

    pub Inv-log_step : (role : _) (st : _) → Keeps (Inv a) (log_step env role st)
    Inv-log_step role st =
        Keeps-log_step (Inv a) env role st (λ m v h. Inv-log (step_written role v) m tt h)

    -- A call that no rule is about.
    pub Inv-ask :
        {A : Type 0} (f : Trace → Result Exc A) (event : Event)
        → ((tr : Trace) → Licensed event tr)
        → Keeps (Inv a) (ask f (λ _. event))
    Inv-ask f event free =
        Keeps-ask (Inv a) f (λ _. event) (λ m r h. Inv-log event m (free m.trace) h)
