-- ===== src/Aliases.antt =====
-- services/aliases: the directory of mobile numbers.
pub mod Phone
pub mod Service
pub mod Moved
pub mod Kept
pub mod Spent
pub mod Sent
mod Tests
