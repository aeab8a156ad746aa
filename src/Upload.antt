-- ===== src/Upload.antt =====
-- The upload pipeline (internal/upload).
pub mod Model
pub mod Checks
pub mod Send
pub mod Steps
pub mod Album
pub mod Ledger
pub mod Counts
pub mod Run
pub mod Keys
pub mod Accounting
pub mod Resume
pub mod Tests
