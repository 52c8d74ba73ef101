-- ===== src/Ratelimit.antt =====
-- internal/ratelimit: the limiters, and the manager that asks all of them.
pub mod Window
pub mod Ledger
pub mod Attempts
pub mod Connections
pub mod Bandwidth
pub mod Manager
pub mod Loops
mod Tests
