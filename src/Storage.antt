-- ===== src/Storage.antt =====
-- src/storage: the drivers of the microcontroller's own flash and of the external flash.
pub mod IntFlash
pub mod W25qxx
