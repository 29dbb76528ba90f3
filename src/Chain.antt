-- ===== src/Chain.antt =====
-- `BaseContractClient` of blockchain/smart_contract_integration/blockchain_client.py, through which
-- the services read and write contracts, and the older one of services/shared/src.
pub mod Web3
pub mod Client
pub mod Nonces
pub mod Loop
pub mod Calls
pub mod Sends
pub mod Frame
pub mod LoopLaws
pub mod Attempts
pub mod Numbering
pub mod AttemptsLaws
pub mod Recorded
pub mod SendLaws
pub mod NonceLaws
pub mod CallLaws
pub mod Stalled
pub mod Resent
pub mod Registry
pub mod RegistryLaws
mod Tests
