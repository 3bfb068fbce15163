-- ===== src/Dtc.antt =====
-- dtc: diagnostic trouble codes, their numbers and the store that the OBD and UDS views share.
pub mod Codes
pub mod Store
