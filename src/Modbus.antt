-- ===== src/Modbus.antt =====
-- src/modbus: the PDU server over the registers, and the two frame layers that carry it.
pub mod Server
pub mod Adu
pub mod Rtu
