-- ===== src/Pipeline.antt =====
-- internal/pipeline: the workflows across aggregates.
pub mod Services
pub mod Evidence
pub mod Evaluate
pub mod Stored
pub mod Extract
