-- ===== src/Config.antt =====
-- internal/config: the rules of the names that the configuration and the protocol use.
pub mod Names
