-- ===== src/Lane.antt =====
-- internal/lane: the goroutine that takes a lane's queued missions, and the manager of the lanes.
pub mod Runner
pub mod Manager
