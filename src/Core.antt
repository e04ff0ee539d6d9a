-- ===== src/Core.antt =====
-- clients/go/coreclient: the client through which every service reaches the ledger.
pub mod Entry
pub mod Errors
pub mod Client
pub mod Book
pub mod Memory
mod Tests
