-- ===== src/Scan.antt =====
-- Discovery of media files (internal/scan).
pub mod Model
pub mod Filter
pub mod Discover
pub mod Walks
pub mod Found
pub mod Returns
pub mod Sample
pub mod Tests
