-- ===== src/Onboarding.antt =====
-- services/onboarding: the applications of new customers.
pub mod Store
pub mod Service
mod Tests
