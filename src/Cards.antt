-- ===== src/Cards.antt =====
-- adapters/cards: what issues cards and processes their purchases.
pub mod Port
pub mod Store
pub mod Service
pub mod Sim
mod Tests
