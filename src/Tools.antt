-- ===== src/Tools.antt =====
-- tools/: the tool layer.
pub mod Registry
