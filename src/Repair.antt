-- ===== src/Repair.antt =====
-- internal/repair: what runs at startup before the listener opens.
pub mod Intents
pub mod Recovery
pub mod Terminal
pub mod Lost
mod Tests
pub mod Orphans
