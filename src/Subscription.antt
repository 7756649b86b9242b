-- ===== src/Subscription.antt =====
-- Subscriptions: the deltas that a mutation of a row sends to each subscriber
-- (crates/cq-core/src/subscription.rs and crates/cq-core/src/predicate_index.rs).
pub mod Rows
pub mod RowSet
pub mod SortKeys
pub mod State
pub mod Sparse
pub mod Plain
pub mod TopN
pub mod Index
pub mod Listed
pub mod Routing
pub mod Engine
pub mod Mirror
pub mod History
pub mod Registry
pub mod Reached
pub mod Skipped
pub mod Window
pub mod Membership
pub mod Diff
mod Tests
