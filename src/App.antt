-- ===== src/App.antt =====
-- src/ecu_simulator/app.py: the parts of a simulator, built from a profile.
pub mod Routing
pub mod Ecus
pub mod Runtime
