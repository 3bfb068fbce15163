-- ===== src/Config.antt =====
-- src/ecu_simulator/config/: the profile that a simulator is built from.
pub mod Schema
