-- ===== src/Risk.antt =====
-- internal/risk: how likely a commitment is to be missed.
pub mod Types
pub mod Engine
