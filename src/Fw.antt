-- ===== src/Fw.antt =====
-- src/fw: the firmware upgrade.
pub mod Can
pub mod Udp
pub mod Upgrade
