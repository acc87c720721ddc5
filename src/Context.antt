-- ===== src/Context.antt =====
-- context/: the token budget of a request, and the view of the history that the model is given.
pub mod Budget
pub mod Trim
pub mod History
pub mod Selection
pub mod Trimming
pub mod Evidence
pub mod Markers
pub mod Pruning
pub mod Compaction
pub mod Conversation
