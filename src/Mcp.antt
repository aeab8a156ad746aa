-- ===== src/Mcp.antt =====
-- The MCP server (internal/mcp).
pub mod Events
pub mod Paging
pub mod Pages
pub mod Replay
pub mod Tests
pub mod Jobs
pub mod Bridge
pub mod Roots
pub mod Asked
pub mod Guard
pub mod RunJob
pub mod Agreement
