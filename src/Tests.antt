-- ===== src/Tests.antt =====
-- The theorems at concrete inputs, over simple stand-ins for what other crates do.
pub mod Toy
pub mod Server
pub mod Devices
mod Challenges
mod Certificates
mod Registrations
mod Databases
mod Signers
mod AllowedSigners
mod Attested
mod Approvals
mod Sessions
mod Clients
mod Configs
mod Handlers
mod Slots
mod Starts
mod Logging
mod Commands
