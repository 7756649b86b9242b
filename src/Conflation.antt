-- ===== src/Conflation.antt =====
-- The conflator of deltas of a subscription (crates/cq-core/src/conflation.rs).
pub mod Conflator
pub mod View
pub mod Tracking
pub mod Submitting
pub mod Lost
mod Tests
