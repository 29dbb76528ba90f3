-- ===== src/Guardrail.antt =====
-- The guardrail service (services/guardrail_service): what a message passes before it reaches the
-- orchestrator.
pub mod Sanitize
pub mod Checks
pub mod Laws
mod Tests
