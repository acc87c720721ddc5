-- ===== src/Entry.antt =====
-- entry/: the store of the tasks that the API takes.
pub mod ApiStore
