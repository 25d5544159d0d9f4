-- ===== src/Intervene.antt =====
-- internal/intervention: whether to interrupt, and how.
pub mod Engine
