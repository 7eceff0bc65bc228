-- ===== src/Examples.antt =====
-- Worlds, packets and objects, and the theorems at them.
pub mod Worlds
pub mod Connections
pub mod Objects
pub mod Registries
pub mod Sessions
pub mod Schedule
pub mod Process
pub mod Logins
pub mod Offers
