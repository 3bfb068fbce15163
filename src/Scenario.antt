-- ===== src/Scenario.antt =====
-- src/ecu_simulator/scenario: what drives the vehicle and the trouble codes as time passes.
pub mod Generators
pub mod Events
pub mod Runner
