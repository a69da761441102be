-- ===== src/Examples.antt =====
-- Runs of the model at concrete inputs.
pub mod Client
pub mod Updates
pub mod Codes
pub mod Pace
pub mod Rooms
pub mod Relay
pub mod Lobby
pub mod Host
pub mod Telemetry
pub mod Game
pub mod Brokers
pub mod Strategies
