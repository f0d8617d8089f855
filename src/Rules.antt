-- ===== src/Rules.antt =====
-- api/internal/rules
pub mod Types
pub mod Validate
pub mod Store
pub mod Handler
