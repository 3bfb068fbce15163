-- ===== src/Obd.antt =====
-- protocols/obd: the OBD-II services.
pub mod Masks
pub mod Dtc
pub mod Pids
pub mod Protocol
