-- ===== src/Cleanup.antt =====
-- internal/cleanup: the passes that delete retired missions and staging files.
pub mod Missions
pub mod StagingGc
pub mod DiskScan
