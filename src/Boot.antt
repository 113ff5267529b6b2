-- ===== src/Boot.antt =====
-- src/boot: the boot loader's own code. MCUboot's image check and swap are not part of it.
pub mod Can
