-- ===== src/Harness.antt =====
-- harness/: hooks, permission and the tool executor.
pub mod Hooks
pub mod Paths
pub mod Permission
pub mod Exec
pub mod Executor
