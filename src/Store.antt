-- ===== src/Store.antt =====
-- internal/store: persistence.
pub mod Table
pub mod Arrange
pub mod Memory
