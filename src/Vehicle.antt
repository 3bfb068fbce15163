-- ===== src/Vehicle.antt =====
-- vehicle: physical values addressed by dotted signal paths.
pub mod Floats
pub mod Signals
pub mod State
