-- ===== src/Config.antt =====
-- src/storage/config_store.c and include/config_store.h: the persisted configuration in two
-- flash slots. The flash behind `struct io_flash` is a parameter: its state is `F`, and each of
-- its calls returns the new state with the success of the call.
pub mod Flash
pub mod Codec
pub mod Store
