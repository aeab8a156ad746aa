-- ===== src/Config.antt =====
-- The settings (internal/config).
pub mod Model
pub mod Validate
pub mod Merge
pub mod Precedence
pub mod Valid
pub mod Env
pub mod Loads
pub mod Resolve
pub mod Tests
