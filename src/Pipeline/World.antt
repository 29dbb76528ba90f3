-- ===== src/Pipeline/World.antt =====
-- contracts/exceptions.py, and what the pipeline's agents share: the state dictionary, the breakers
-- and the cache of `Dependencies`, the log of outside calls, and the retried call.
use Prim.Native.String.{◌++◌ as append}
use big_x.Base.{ℕ, zero, suc, String, Bool, Option, none, some, List, ◌∷◌, if◌then◌else◌}
use big_x.Base.Json.{Json}
use big_x.Base.Exec.{Result, ok, err, Exec}
use big_x.Resilience.Breaker.{CircuitBreaker}
use big_x.Resilience.Retry.{Hooks, RetryError, breaker_open, type_error, exhausted, with_retry}
use big_x.Resilience.Cache.{Cache}
use big_x.Orchestrator.State.{SubTask, AgentState, Context, Doc}
use big_x.Orchestrator.World.{Call, Receipt}

-- The exceptions, and any other one with its text.
pub data Exc : Type 0 where
  planner_parse unknown_tool memory_retrieval tool_resolution policy_rejected transient other :
      String → Exc
  capability_denied : String → String → Exc

-- `str(exc)`
abbrev pub text_of : Exc → String
text_of (policy_rejected reason) = append "Policy rejected: " reason
text_of (capability_denied agent_id required) =
    append "Agent " (append agent_id (append " lacks capability: " required))
text_of (unknown_tool tool_name) = append "Unknown tool: " tool_name
text_of (planner_parse e) = e
text_of (memory_retrieval e) = e
text_of (tool_resolution e) = e
text_of (transient e) = e
text_of (other e) = e

-- db.models.execution_history
pub data AgentRole : Type 0 where
  planner_role memory_role simulator_role executor_role critic_role : AgentRole

pub data StepStatus : Type 0 where
  started succeeded step_failed step_retried : StepStatus

pub data Event : Type 0 where
  slept : ℕ → Event
  completion portfolio_read history_read embedded queried agent_read : Event
  capability_read : String → String → Result Exc Bool → Event
  call_built gas_estimated : Event
  checked : String → Call → Result Exc (Bool × String) → Event
  dispatched : String → SubTask → Result Exc String → Event
  receipt_awaited : String → Result Exc Receipt → Event
  spend_recorded : String → Json → Result Exc (Unit {0}) → Event
  step_written : AgentRole → StepStatus → Event

abbrev pub Trace : Type 0
Trace = List Event

pub record Env : Type 0 where
  -- the monotonic clock, which calls and sleeps move
  pub time : Trace → ℕ
  -- `json.loads`, the text of the error if the schema refuses, and `not v.strip()`, whether a text is
  -- all white space
  pub loads : String → Option Json
  pub validation_text : String → String
  pub is_blank : String → Bool
  pub complete : Trace → String → Context → Result Exc String
  pub get_agent : Trace → String → Result Exc ℕ
  -- `getattr(client.contract.functions, required, None)`: its default stands for a function that is not
  -- there, and any other exception passes
  pub find_function : Trace → String → Result Exc (Unit {0})
  pub has_capability : Trace → String → String → Result Exc Bool
  pub get_portfolio : Trace → String → Result Exc Json
  pub recent_history : Trace → String → ℕ → Result Exc (List Json)
  pub embed : Trace → String → Result Exc (List ℕ)
  pub query : Trace → List ℕ → ℕ → Result Exc (List Doc)
  -- `tool_router.get_tool`, whether a tool is registered, and its `build_call`
  pub is_registered : String → Bool
  pub build_call : Trace → String → SubTask → Result Exc Call
  pub estimate_gas : Trace → Call → Result Exc ℕ
  pub check_action : Trace → String → Call → Result Exc (Bool × String)
  pub dispatch : Trace → String → SubTask → Result Exc String
  pub wait_for_receipt : Trace → String → Result Exc Receipt
  pub record_spend : Trace → String → Json → Result Exc (Unit {0})
  -- whether the database takes an execution step
  pub write_step : Trace → AgentRole → StepStatus → Bool

-- The state dictionary, which a node changes in place, and what outlives a node.
pub record Machine : Type 0 where
  pub state : AgentState
  pub trace : Trace
  pub policy_circuit : CircuitBreaker
  pub chain_circuit : CircuitBreaker
  pub execution_circuit : CircuitBreaker
  pub capability_cache : Cache ℕ

abbrev pub Action : Type 0 → Type 0
Action A = Exec Exc Machine A

abbrev pub log : Event → Machine → Machine
log e m = record m { trace = e ∷ m.trace }

abbrev pub ask : {A : Type 0} → (Trace → Result Exc A) → (Result Exc A → Event) → Action A
ask f event m = (f m.trace, log (event (f m.trace)) m)

abbrev pub update : (AgentState → AgentState) → Action (Unit {0})
update f m = (ok tt, record m { state = f m.state })

-- `except` around an action
abbrev pub catch : {A : Type 0} → Action A → (Exc → Action A) → Action A
catch act handler m = elim (act m).0 [ ok a ↦ (ok a, (act m).1) | err e ↦ handler e (act m).1 ]

-- `_log_step`: a status that `StepStatus` does not know, or a failing database, is swallowed.
abbrev pub log_step : Env → AgentRole → Option StepStatus → Action (Unit {0})
log_step env role none m = (ok tt, m)
log_step env role (some st) m =
    (ok tt, if env.write_step m.trace role st then log (step_written role st) m else m)

module _ (env : Env) where
  -- Which breaker a call shares.
  abbrev pub no_circuit : Hooks Machine
  no_circuit = record {
    now = λ m. env.time m.trace;
    sleep = λ d m. log (slept d) m;
    circuit = λ m. none;
    set_circuit = λ b m. m;
  }

  abbrev pub by_policy : Hooks Machine
  by_policy = record no_circuit {
    circuit = λ m. some m.policy_circuit;
    set_circuit = λ b m. record m { policy_circuit = b };
  }

  abbrev pub by_chain : Hooks Machine
  by_chain = record no_circuit {
    circuit = λ m. some m.chain_circuit;
    set_circuit = λ b m. record m { chain_circuit = b };
  }

  abbrev pub by_execution : Hooks Machine
  by_execution = record no_circuit {
    circuit = λ m. some m.execution_circuit;
    set_circuit = λ b m. record m { execution_circuit = b };
  }

-- The loops are called with two or three attempts.
abbrev attempts_text : ℕ → String
attempts_text (suc (suc zero)) = "2"
attempts_text (suc (suc (suc zero))) = "3"
attempts_text _ = "some"

abbrev last_text : Option Exc → String
last_text none = "None"
last_text (some e) = text_of e

-- The `TransientDependencyError` that `with_retry` raises.
abbrev pub to_exc : RetryError Exc → Exc
to_exc breaker_open = transient "Circuit breaker open — dependency likely degraded"
to_exc type_error = other "unsupported operand type(s) for -"
to_exc (exhausted n last) =
    transient
      (append "Failed after " (append (attempts_text n) (append " attempts: " (last_text last))))

abbrev pub as_exc : {A : Type 0} → Result (RetryError Exc) A × Machine → Result Exc A × Machine
as_exc (ok a, m) = (ok a, m)
as_exc (err e, m) = (err (to_exc e), m)

-- A call under `with_retry`, with a backoff of one second at first. The breaker is looked up at
-- each use, which is the object that was passed.
unfoldable pub retried : {A : Type 0} → Hooks Machine → ℕ → Action A → Action A
retried hooks max_retries act m = as_exc (with_retry hooks act max_retries 1 m)
