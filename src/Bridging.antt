-- ===== src/Bridging.antt =====
-- The bridging service (services/bridging_service): the monitor of Bitcoin deposits.
pub mod Custody
pub mod CustodyLaws
mod Tests
