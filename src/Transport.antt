-- ===== src/Transport.antt =====
-- src/ecu_simulator/transport: what a transport hands over, and takes back.
pub mod Messages
pub mod IsoTp
pub mod Endpoints
