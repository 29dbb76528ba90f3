-- ===== src/Resilience.antt =====
-- contracts/resilience.py: the circuit breaker, the retry loop and the cache that the planning
-- pipeline shares; and the retry loop of services/wallet_service/src/mpc_wallet.py, which has the
-- same breaker.
pub mod Breaker
pub mod Retry
pub mod Cache
pub mod BreakerLaws
pub mod RetryLaws
pub mod CacheLaws
pub mod RetryTriple
mod Tests
