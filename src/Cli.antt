-- ===== src/Cli.antt =====
-- cmd/letts: the exit codes of the command line client.
pub mod ExitCodes
mod Tests
