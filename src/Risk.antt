-- ===== src/Risk.antt =====
-- The risk service (services/risk_policy_engine): its estimate of gas prices.
pub mod Gas
pub mod GasLaws
mod Tests
