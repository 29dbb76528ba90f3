-- ===== src/Pipeline/Rules.antt =====
-- The pipeline's ways to build an action, as rules on predicates of the machine.
use big_x.Base.{ℕ, ◌≡◌, Option, none, some, inl, inr, Bool-cases}
use big_x.Base.Exec.{Result, ok, err, Result-cases}
use big_x.Base.Triple.{Post, Triple, Keeps}
use big_x.Orchestrator.State.{AgentState}
use big_x.Resilience.Retry.{Hooks, RetryError, with_retry}
use big_x.Resilience.RetryTriple.{Stable, with_retry-Triple}
use big_x.Pipeline.World.{
  Exc, Event, Trace, Env, Machine, Action, AgentRole, StepStatus, ask, log, update, catch, log_step,
  retried, as_exc, step_written,
}

module _ {A : Type 0} (P : Machine → Type 0) where
  pub Triple-ask :
      (Q : A → Machine → Type 0) (f : Trace → Result Exc A) (event : Result Exc A → Event)
      → ((m : Machine) (a : A) → P m → f m.trace ≡ ok a → Q a (log (event (ok a)) m))
      → ((m : Machine) (e : Exc) → P m → P (log (event (err e)) m))
      → Triple P P (ask f event) Q
  Triple-ask Q f event good bad = record {
    at = λ m h. elim (Result-cases (f m.trace)) [
      | inl (a, answered) ↦ rw answered (good m a h answered)
      | inr (e, refused) ↦ rw refused (bad m e h)
    ];
  }

  -- A call whose event the predicate does not look at.
  pub Keeps-ask :
      (f : Trace → Result Exc A) (event : Result Exc A → Event)
      → ((m : Machine) (r : Result Exc A) → P m → P (log (event r) m))
      → Keeps P (ask f event)
  Keeps-ask f event keep =
      Triple-ask (λ _. P) f event (λ m a h e. keep m (ok a) h) (λ m e h. keep m (err e) h)

  as_exc-Post :
      (Q : A → Machine → Type 0) (r : Result (RetryError Exc) A × Machine)
      → Post P Q r
      → Post P Q (as_exc r)
  as_exc-Post Q (ok a, m) h = h
  as_exc-Post Q (err e, m) h = h

  pub Triple-retried :
      (hooks : Hooks Machine) (n : ℕ) (act : Action A) (Q : A → Machine → Type 0)
      → Stable hooks P
      → ((a : A) → Stable hooks (Q a))
      → Triple P P act Q
      → Triple P P (retried hooks n act) Q
  unfolding retried
  Triple-retried hooks n act Q sp sq h = record {
    at = λ m p.
        as_exc-Post Q (with_retry hooks act n 1 m)
          ((with_retry-Triple hooks P sp Q sq act h n 1).at m p);
  }

  pub Keeps-retried :
      (hooks : Hooks Machine) (n : ℕ) (act : Action A)
      → Stable hooks P
      → Keeps P act
      → Keeps P (retried hooks n act)
  Keeps-retried hooks n act s h = Triple-retried hooks n act (λ _. P) s (λ _. s) h

  pub Keeps-catch :
      (act : Action A) (handler : Exc → Action A)
      → Keeps P act
      → ((e : Exc) → Keeps P (handler e))
      → Keeps P (catch act handler)
  Keeps-catch act handler h k = record {
    at = λ m p. elim (Result-cases (act m).0) [
      | inl (a, returned) ↦
          let q : Post {E = Exc} {A = A} P (λ _. P) (ok a, (act m).1) = rw returned at (h.at m p) in
          rw (catch, returned) q
      | inr (e, raised) ↦
          let x : Post {E = Exc} {A = A} P (λ _. P) (err e, (act m).1) = rw raised at (h.at m p) in
          rw (catch, raised) ((k e).at (act m).1 x)
    ];
  }

module _ (P : Machine → Type 0) where
  pub Keeps-update :
      (f : AgentState → AgentState)
      → ((m : Machine) → P m → P (record m { state = f m.state }))
      → Keeps P (update f)
  Keeps-update f keep = record { at = keep }

  pub Keeps-log_step :
      (env : Env) (role : AgentRole) (st : Option StepStatus)
      → ((m : Machine) (v : StepStatus) → P m → P (log (step_written role v) m))
      → Keeps P (log_step env role st)
  Keeps-log_step env role none keep = record { at = λ m h. h }
  Keeps-log_step env role (some v) keep = record {
    at = λ m h. elim (Bool-cases (env.write_step m.trace role v)) [
      | inl written ↦ rw written (keep m v h)
      | inr lost ↦ rw lost h
    ];
  }
