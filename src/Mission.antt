-- ===== src/Mission.antt =====
-- internal/mission: what becomes of a mission's process.
pub mod Outcome
pub mod Machine
pub mod Finalize
pub mod QueuedKill
pub mod Fd3Codec
pub mod Fd3Violations
pub mod Fd3Reader
pub mod Fd3Lines
