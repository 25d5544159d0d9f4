-- ===== src/Domain.antt =====
-- internal/domain: the aggregates of the coordination layer, their validation and their lifecycles.
pub mod Errors
pub mod Types
pub mod Lifecycle
pub mod Commitment
pub mod Goal
pub mod Plan
pub mod Decision
pub mod Task
pub mod Assignment
pub mod Intervention
