-- ===== src/Wire.antt =====
-- The wire protocol's negotiation and guards (crates/cq-protocol/src).
pub mod Version
pub mod DepthGuard
pub mod Nesting
mod Tests
