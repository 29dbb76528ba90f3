-- ===== src/Wallet.antt =====
-- The wallet service (services/wallet_service): its spend limits.
pub mod SpendLimits
pub mod SpendLaws
pub mod Mpc
pub mod MpcLaws
mod MpcTests
mod Tests
