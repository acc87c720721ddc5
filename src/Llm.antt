-- ===== src/Llm.antt =====
-- llm/: usage and errors of the calls of a model.
pub mod Usage
pub mod Errors
mod Examples
