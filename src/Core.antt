-- ===== src/Core.antt =====
-- scanbus-core: the domain model, free of D-Bus.
pub mod Id
pub mod Names
pub mod Status
pub mod PairingState
pub mod JobState
pub mod Profile
pub mod Path
pub mod Value
pub mod Model
pub mod Progress
pub mod Pairing
