-- ===== src/Uds.antt =====
-- src/ecu_simulator/protocols/uds: UDS data services and the trouble codes that they read.
pub mod Providers
pub mod Dtc
pub mod Protocol
