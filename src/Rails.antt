-- ===== src/Rails.antt =====
-- adapters/rails: between the instant-payment rail and the ledger.
pub mod Port
pub mod Service
pub mod Sim
mod Tests
