-- ===== src/Daemon.antt =====
-- scanbus-daemon: the service.
pub mod Jobs
pub mod Options
pub mod Listeners
pub mod Profiles
pub mod Store
pub mod Objects
pub mod Address
pub mod Backends
pub mod Scanners
pub mod Discovery
