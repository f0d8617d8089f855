-- ===== src/Events.antt =====
-- api/internal/events
pub mod Types
pub mod Store
pub mod Queue
pub mod Reads
pub mod Handler
