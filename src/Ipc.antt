-- ===== src/Ipc.antt =====
-- ipc/: the messages between agents.
pub mod Bus
