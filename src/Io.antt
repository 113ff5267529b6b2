-- ===== src/Io.antt =====
-- src/io: the inputs and outputs.
pub mod Adc
