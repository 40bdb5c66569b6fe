-- ===== src/Brother.antt =====
-- scanbus-backend-brother/src/skey: what a Brother panel sends when a key is pressed.
pub mod Fields
pub mod Frame
pub mod Function
pub mod Event
pub mod Snmp
pub mod Register
pub mod Registrar
