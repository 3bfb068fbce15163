-- ===== src/Examples.antt =====
-- The theorems at concrete inputs, and what the inputs are.
pub mod Data
pub mod Dtc
pub mod Obd
pub mod Uds
pub mod Ecu
pub mod Scenario
pub mod Observe
pub mod Transport
pub mod App
