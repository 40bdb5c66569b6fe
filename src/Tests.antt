-- ===== src/Tests.antt =====
-- The theorems on concrete inputs, one module for each part of the development.
mod Brother
mod Ids
mod Names
mod Pairing
mod Options
mod Jobs
mod Listeners
mod Snmp
mod Registrar
mod Select
mod Cli
mod Profiles
mod Store
mod Scanners
mod Discovery
mod Objects
