-- ===== src/Signing.antt =====
-- contracts/wallet_service.py: the nonces that it hands out, and its pools of RPC providers.
pub mod Nonces
pub mod NoncesLaws
pub mod Providers
pub mod ProvidersLaws
pub mod Balancer
pub mod BalancerLaws
mod PoolTests
mod Tests
