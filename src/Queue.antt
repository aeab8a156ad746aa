-- ===== src/Queue.antt =====
-- Turns of runs that share a state file (internal/queue).
pub mod Model
pub mod Coordinator
pub mod Turns
pub mod InTurn
pub mod Rounds
pub mod Cleared
pub mod Exclusion
pub mod Races
mod Tests
