-- ===== src/Agents.antt =====
-- services/agents: the agents of the platforms, the keys they sign with, and why they pay.
pub mod Rows
pub mod Store
pub mod Intents
pub mod Frame
pub mod Revoked
pub mod Rotation
mod Tests
