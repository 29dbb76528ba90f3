-- ===== src/Orchestrator/World.antt =====
-- What the agents call outside this service: the LLM, the vector store, the database, the chain,
-- the policy engine and the tool router. Each call is logged with its outcome, newest first, and
-- an answer may depend on all calls before it.
use big_x.Base.{ℕ, String, Bool, Option, List, ◌∷◌}
use big_x.Base.Json.{Json}
use big_x.Base.Exec.{Result, Exec}
use big_x.Orchestrator.State.{SubTask, Context, Doc}

-- An exception is its text, `str(exc)`.
abbrev pub Error : Type 0
Error = String

pub record Call : Type 0 where
  pub target : String
  pub value : ℕ
  pub calldata : String

pub record Receipt : Type 0 where
  pub success : Bool
  pub gas_used : ℕ

pub data Event : Type 0 where
  completion portfolio_read session_opened embedded queried : Event
  gas_estimated : Call → Event
  checked : String → Call → Result Error (Bool × String) → Event
  dispatched : String → SubTask → Result Error String → Event
  receipt_awaited : String → Result Error Receipt → Event
  spend_recorded : String → Json → Result Error (Unit {0}) → Event

abbrev pub Trace : Type 0
Trace = List Event

pub record Env : Type 0 where
  -- `json.loads`; `none` is a `JSONDecodeError`
  pub loads : String → Option Json
  -- whether AGENT_ORCHESTRATOR_MODE, "local" by default, is "local" in lower case
  pub local_mode : Bool
  pub complete : Trace → String → Context → Result Error String
  pub get_portfolio : Trace → String → Result Error Json
  pub open_session : Trace → Result Error (Unit {0})
  pub embed : Trace → String → Result Error (List ℕ)
  pub query : Trace → List ℕ → ℕ → Result Error (List Doc)
  pub estimate_gas : Trace → Call → Result Error ℕ
  pub check_action : Trace → String → Call → Result Error (Bool × String)
  pub dispatch : Trace → String → String → Json → Json → Result Error String
  pub wait_for_receipt : Trace → String → Result Error Receipt
  pub record_spend : Trace → String → Json → Result Error (Unit {0})

abbrev pub Action : Type 0 → Type 0
Action A = Exec Error Trace A

-- A call: its answer, with the event that logs it.
abbrev pub ask : {A : Type 0} → (Trace → Result Error A) → (Result Error A → Event) → Action A
ask f event tr = (f tr, event (f tr) ∷ tr)
