-- ===== src/Predicate.antt =====
-- Compiled predicates of queries and subscriptions (crates/cq-core/src/predicate.rs). Floating-point
-- arithmetic, regular expressions and the case tables of Unicode are operations in a record; a row
-- of the column store is what its getters answer for each column.
pub mod Values
pub mod Strings
pub mod Numbers
pub mod Compiled
pub mod Leaf
pub mod Evaluation
pub mod Columns
pub mod Operands
pub mod Frame
pub mod Nulls
pub mod Kleene
pub mod Folding
pub mod Sample
mod Tests
