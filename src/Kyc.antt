-- ===== src/Kyc.antt =====
-- adapters/kyc: the identity checks and the screening against sanction lists.
pub mod Port
pub mod Sim
mod Tests
