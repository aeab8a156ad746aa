-- ===== src/Plan.antt =====
-- The upload plan (internal/plan): sorting, grouping by directory, slicing into albums.
pub mod Model
pub mod Sort
pub mod Order
pub mod Insertion
pub mod Group
pub mod Split
pub mod Build
