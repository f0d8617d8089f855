-- ===== src/Auth.antt =====
-- api/internal/auth
pub mod Store
pub mod Tokens
pub mod Middleware
pub mod Handler
pub mod Samples
