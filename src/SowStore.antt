-- ===== src/SowStore.antt =====
-- The store of rows in one shard or several (crates/cq-core/src/sow_store.rs).
pub mod Shards
pub mod Lookup
pub mod Equivalence
mod Tests
