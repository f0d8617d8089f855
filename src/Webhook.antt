-- ===== src/Webhook.antt =====
-- api/internal/webhook
pub mod Hmac
pub mod Handler
pub mod Samples
pub mod Tests
