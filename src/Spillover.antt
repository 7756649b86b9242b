-- ===== src/Spillover.antt =====
-- The overflow file of a slow subscriber (crates/cq-transport/src/spillover.rs).
pub mod State
pub mod Framing
pub mod Fifo
pub mod Reopened
mod Tests
