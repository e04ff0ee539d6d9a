-- ===== src/Oauth.antt =====
-- services/oauth: the platforms' credentials, their tokens, and what they ask a holder for.
pub mod Token
pub mod Verified
pub mod Store
pub mod Consent
pub mod Resolved
pub mod Secrets
mod Tests
