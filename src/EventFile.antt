-- ===== src/EventFile.antt =====
-- internal/eventfile: the file of a mission's events, one JSON object to a line.
pub mod Json
pub mod Writer
