-- ===== src/Storage.antt =====
-- internal/storage: the tables, and the statements that read and change them.
pub mod Rows
pub mod Missions
pub mod Listing
pub mod Staging
pub mod Refs
pub mod Intents
