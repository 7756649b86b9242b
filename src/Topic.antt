-- ===== src/Topic.antt =====
-- Topics: the table of the latest records by key, its journal, and the events for the evaluator
-- (crates/cq-core/src/topic.rs and crates/cq-core/src/store.rs).
pub mod Values
pub mod Table
pub mod State
pub mod Merging
pub mod Publishing
pub mod Replay
pub mod Sparse
pub mod Rebuilding
pub mod Journaled
pub mod Runs
pub mod Recovery
pub mod Cells
pub mod Slots
pub mod Records
pub mod Redelivery
pub mod Numbering
pub mod Writes
pub mod Failures
mod Tests
