-- ===== src/Orchestrator/State.antt =====
-- services/agent-orchestrator/src/agents/state.py: the dictionaries that the agents hand on. A
-- text field that only ever holds a few values is an enumeration.
use big_x.Base.{ℕ, String, Bool, Option, List}
use big_x.Base.Json.{Json}

-- A subtask's `tool` is always there, since the planner tests it; the other keys may be missing.
pub record SubTask : Type 0 where
  pub tool : String
  pub action : Option Json
  pub params : Option Json

pub record Critique : Type 0 where
  pub outcome_matches_intent : Bool
  pub should_retry : Bool
  pub feedback : String

pub data Outcome : Type 0 where
  confirmed failed : Outcome

pub record ExecutionResult : Type 0 where
  pub tx_hash : Option String
  pub status : Outcome
  pub actual_gas_used : Option ℕ
  pub error : Option String

pub record SimulationResult : Type 0 where
  pub estimated_gas : ℕ
  pub estimated_slippage_bps : ℕ
  pub risk_score : ℕ
  pub passed_policy_check : Bool
  pub policy_reason : String

pub record Doc : Type 0 where
  pub content : String
  pub score : Json

pub record Context : Type 0 where
  pub portfolio : Option Json
  pub recent_history : List Json
  pub relevant_docs : List Doc

pub data Status : Type 0 where
  planning simulating executing reviewing retrying done failed : Status

pub record AgentState : Type 0 where
  pub task_id : String
  pub agent_id : String
  pub user_request : String
  pub context : Context
  pub subtasks : List SubTask
  pub current_subtask_index : ℕ
  pub simulation : Option SimulationResult
  pub execution : Option ExecutionResult
  pub critique : Option Critique
  pub retry_count : ℕ
  pub max_retries : ℕ
  pub status : Status
