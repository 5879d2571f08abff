-- ===== src/Filter.antt =====
-- scheduler/filter.
pub mod Expr
pub mod Outcome
pub mod Narrowing
pub mod Kept
pub mod Taken
pub mod Exact
pub mod Labels
pub mod Capacity
pub mod Port
pub mod Batch
pub mod Samples
