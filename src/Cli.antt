-- ===== src/Cli.antt =====
-- scanbus-cli/src: the command line.
pub mod Duration
