-- ===== src/Demo.antt =====
-- The demo of the repository (cortex-m-demo/src), which runs the library on a device.
pub mod Channel
pub mod Button
pub mod Socket
pub mod Bus
pub mod Receive
pub mod Incoming
pub mod Application
pub mod Link
pub mod Main
