-- ===== src/Pipeline.antt =====
-- The planning pipeline (contracts/): the same five agents as the orchestrator's, with retries,
-- circuit breakers and a cache around their calls, and a wrapper that turns an exception of a node
-- into a failed state.
pub mod World
pub mod Planner
pub mod Memory
pub mod Simulator
pub mod Executor
pub mod Critic
pub mod Graph
pub mod Rules
pub mod Covered
pub mod CoveredPlan
pub mod CoveredNodes
pub mod CoveredRun
pub mod Stale
pub mod Plans
pub mod Capabilities
mod Tests
