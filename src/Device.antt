-- ===== src/Device.antt =====
-- The conflict checks and the pending readouts of the simulated device.
pub mod Resources
pub mod Readouts
pub mod Gates
pub mod Electronics
