-- ===== src/Orchestrator.antt =====
-- The agent orchestrator (services/agent-orchestrator/src): the state, what the agents call, the
-- five agents, and the graph that runs them. The modules named for a proof hold the theorems.
pub mod State
pub mod World
pub mod Planner
pub mod Memory
pub mod Simulator
pub mod Executor
pub mod Critic
pub mod Graph
pub mod Service
pub mod Justified
pub mod Termination
pub mod Retries
pub mod Verdicts
pub mod Local
pub mod Endpoint
mod Tests
