-- ===== src/Observe.antt =====
-- src/ecu_simulator/observe/: what watches the request handler and publishes each exchange.
pub mod Limits
pub mod HandOff
pub mod History
pub mod Connection
pub mod Writer
pub mod Publisher
pub mod Wrapper
pub mod Events
