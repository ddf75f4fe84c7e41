-- ===== src/Selection.antt =====
-- internal/selection: exact read targets, their authorization, and the reads.
pub mod Contracts
pub mod Texts
pub mod Planner
pub mod Binder
pub mod Distinct
pub mod Bound
pub mod Permitted
pub mod Planned
pub mod Executable
pub mod Executor
pub mod Execution
pub mod Batch
pub mod Sorted
pub mod Selected
