-- ===== src/Client.antt =====
-- scanbus-client/src: what the command line and the window share.
pub mod Select
