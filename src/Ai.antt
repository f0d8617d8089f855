-- ===== src/Ai.antt =====
-- api/internal/ai
pub mod Schema
pub mod Ids
pub mod Prompt
pub mod Providers
pub mod Store
pub mod Handler
pub mod Samples
