-- ===== src/Tg.antt =====
-- The Telegram transport (internal/tg).
pub mod Middleware
pub mod Calls
pub mod Mapping
pub mod Tests
