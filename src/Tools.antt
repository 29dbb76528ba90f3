-- ===== src/Tools.antt =====
-- The tools of services/tool_router that build transactions: the bridge, and lending.
pub mod Bridge
pub mod BridgeLaws
pub mod BridgeRuns
pub mod BridgeOnce
pub mod Defi
pub mod DefiLaws
mod DefiTests
mod Tests
