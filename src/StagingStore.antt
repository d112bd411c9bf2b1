-- ===== src/StagingStore.antt =====
-- internal/stagingstore: the locks of uploads in progress.
pub mod UploadLock
