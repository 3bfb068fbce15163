-- ===== src/Ecu.antt =====
-- src/ecu_simulator/ecu: routing by address, dispatch by service identifier.
pub mod Router
pub mod Ecu
pub mod Dispatcher
