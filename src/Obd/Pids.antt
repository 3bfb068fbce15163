-- ===== src/Obd/Pids.antt =====
-- src/ecu_simulator/protocols/obd/pids.py: the Mode 01 parameters and their encoders.
mod Encoders
pub mod Table
pub mod Laws
unfoldable pub use Encoders.*
unfoldable pub use Table.*
