-- ===== src/Circuit.antt =====
-- internal/circuit: protection of calls to outside services.
pub mod Breaker
