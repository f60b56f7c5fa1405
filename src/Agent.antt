-- ===== src/Agent.antt =====
-- The package `agent`: the runtime of the agent process.
pub mod Protocol
pub mod Pairing
pub mod Party
pub mod Session
pub mod Broker
pub mod Keygen
pub mod Transfer
pub mod Payment
pub mod Handlers
pub mod Runtime
pub mod Ceremony
pub mod Signing
