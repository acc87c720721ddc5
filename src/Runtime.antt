-- ===== src/Runtime.antt =====
-- runtime/: where a run works.
pub mod Worktree
