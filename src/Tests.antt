-- ===== src/Tests.antt =====
-- Runs of the models at concrete inputs, and the theorems at inputs where their hypotheses hold.
pub mod Transport
pub mod Registers
pub mod Instructions
pub mod Programs
pub mod Timing
pub mod Devices
pub mod Backends
pub mod Cores
pub mod Setup
