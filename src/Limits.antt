-- ===== src/Limits.antt =====
-- Admission of connections and sessions (crates/cq-transport/src/limits.rs).
pub mod Tally
pub mod State
pub mod Books
pub mod Accounts
pub mod Server
pub mod Refusals
pub mod Rate
mod Tests
