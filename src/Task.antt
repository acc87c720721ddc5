-- ===== src/Task.antt =====
-- task/: the durable task engine.
pub mod Tables
pub mod Rows
pub mod Engine
