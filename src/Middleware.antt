-- ===== src/Middleware.antt =====
-- internal/server/middleware: the checks in front of the daemon's HTTP handlers.
pub mod BruteForce
pub mod Auth
