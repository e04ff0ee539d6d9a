-- ===== src/Sessions.antt =====
-- services/sessions: the sessions of the app, from the way in to the way out.
pub mod Store
pub mod Closed
mod Tests
