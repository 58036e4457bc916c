-- ===== src/Tests.antt =====
-- Concrete crates, channels and states, on which the theorems are tried.
pub mod Crates
pub mod Channels
pub mod Opening
pub mod Device
mod Examples
mod DeviceExamples
mod Devices
mod Hashes
mod Establishing
