-- ===== src/State.antt =====
-- The resume state (internal/state).
pub mod Model
pub mod Store
pub mod Marks
pub mod Maintenance
mod Tests
