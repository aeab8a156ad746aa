-- ===== src/Media.antt =====
-- Media files (internal/media).
pub mod Model
pub mod Fit
pub mod Temp
pub mod Search
pub mod Tidy
pub mod Leftovers
pub mod Orient
pub mod Compress
pub mod Result
pub mod Best
pub mod Loops
pub mod Pixels
pub mod Tests
