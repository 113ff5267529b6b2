-- ===== src/Util.antt =====
-- src/util: byte order and checksums.
pub mod Bytes
pub mod Crc
mod Tests
