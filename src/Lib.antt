-- ===== src/Lib.antt =====
-- The configuration, register, Modbus and firmware-upgrade core of io-edge-hub, the firmware of an
-- edge device with 16 digital inputs, 8 digital outputs and 4 analog inputs.
--
-- A master talks Modbus to the device over TCP or a serial line. The framing of each line takes the
-- PDU from the frame and gives it to one server, which reads and writes the register map; a
-- register write has effects (outputs, clock, saving, restart); saving goes to a store of two flash
-- slots, from which the registers are filled at the start. An upgrade session writes a new image
-- into a slot of the external flash and checks it; its bytes come over CAN, over UDP or in the
-- frames of a WebSocket, at the end of which a worker checks the image and restarts the device.
-- Before all of that the boot loader offers a rescue upgrade over CAN, straight into the slot of the
-- internal flash. A small protocol
-- over UDP sets and asks for the address and the Modbus line, and resets the configuration.
--
-- Which file models which code:
--   Util/Bytes, Util/Crc       src/util/io_bytes.c, src/util/io_crc.c, all functions
--   Config/Flash               src/include/io_flash.h: `struct io_flash` as a record of operations
--                              over a state F, and what the part's documentation promises (IsNor)
--   Config/Codec, Config/Store src/storage/config_store.c: the record of a slot (`rec_bytes`,
--                              `decode`), and config_store_init, _save, _erase_all and _get as
--                              init, save, erase_all and get over the statics (Store) and F
--   Regs, Regs/Index           src/modbus/regmap.c and src/include/init.h: the statics with the
--                              clock and the store's state are `Regs`; each function keeps its
--                              name, without io_; set_timestamp is that of src/sys/time.c
--   Device                     src/main.c: the start of the configuration, with the registers over
--                              the configuration store (store_env); the version is the build's
--                              and the time the clock's
--   Modbus/Server              src/modbus/mb_server.c: one function per function code, dispatch,
--                              process (mb_server_process); its loops are in Modbus/Server/Loops
--   Modbus/Adu                 src/modbus/mbtcp_adu.c: adu_process (mbtcp_adu_process)
--   Modbus/Rtu                 src/modbus/rtu_frame.c: rx_feed, t35_expired, bind, reset, t35_ms
--   Fw/Upgrade                 src/fw/fw_upg.c: each fw_upg_ function under its name without fw_
--   Fw/Can, Fw/Can/Commands    src/fw/fw_can.c: handle_fw_data, handle_keyhash and the frames sent,
--                              then handle_platform_rx, the task's round and the queue
--   Fw/Udp                     src/fw/fw_udp.c: fw_udp_cmd with its queue, the task's round with a
--                              function per command, and the pool of answers
--   Storage/IntFlash           src/storage/intflash.c over the record Hal of the HAL's calls
--   Storage/W25qxx             src/storage/w25qxx.c over the record Spi; w25_backend is an instance
--                              of the interface of Config/Flash, and Storage/W25qxx/Works says when
--                              its calls succeed, as the upgrade needs it
--   Boot/Can                   src/boot/boot_can.c: the handlers of frames, each under its name, on
--                              the record Boot; Boot/Can/Driver is can_send and can_recv,
--                              Boot/Can/Wait is boot_can_wait
--   Io/Adc                     src/io/adc.c: ai_convert
--   Web/Base64, Web/Sha1       src/web/ws.c: b64_encode, b64_decode and SHA-1, each function under
--                              its name; Web/Base64/Standard and Web/Sha1/Standard are RFC 4648 and
--                              RFC 3174, written apart from the code
--   Web/Channel                src/web/ws.c: ws_feed with its receiver, ws_frame_done, ws_send,
--                              ws_close_session and ws_attach; lwIP's connection is the record Tcp
--   Web/Handshake              src/web/ws.c: ws_handshake
--   Web/Worker                 src/web/ws.c: ws_fw_task, and the parts of ws_handle_cmd for fw_start
--                              and fw_end after the JSON values have been found
--   Net/UdpCfg                 src/net/udp_cfg.c, all functions, and src/net/udp_task.c:
--                              same_subnet24 and udp_cfg_recv
--   Common                     Boolean tests, lists, words and bit operations on native numbers
-- The other files under these names hold their lemmas; Tests files apply the theorems to examples.
--
-- A byte or word is a number; a buffer is the list of its valid bytes; a conversion to a w-bit type
-- is written out as a remainder. Loops recur on the rounds that are left, and need no fuel, or on
-- fuel: write_pages, upg_write and the version frames have one more than the number of bytes,
-- crc_loop one more than the size of the image, and each round takes a byte at least; the search
-- for the fingerprint has 65536 for an area of at most 65535 bytes; sha1_update has one more than the
-- bytes, each round taking one at least, the padding loop of sha1_final 64, since fewer zeros are
-- needed, and the search for the end of the spaces before the key the length of the buffer. The
-- loops of both flash drivers have one more than the bytes of the call, and the wait of the boot
-- loader has the number of its polls, of which each round takes one; the wait of can_send has the
-- 100000 rounds of the code. `none` stands for
-- "no response".
-- The hooks of the register map are recorded as events, the latest first, and what it needs of the
-- configuration store is the record Env.
--
-- Not modelled: the drivers, sockets and tasks around these parts, the mutex of the register map
-- (operations run one after another) and of the upgrade, null pointers, and the history, FTP and
-- shell code. Of the boot loader the set-up of the CAN controller, the jump to the image and
-- MCUboot are left out: what the controller and the clock give the wait is a list of polls, and
-- where that list ends, the result is that of the part of the run that it covers. Of the WebSocket the
-- periodic pushes with their times and the commands other than those of an upgrade are left out: a
-- text frame calls a parameter.

pub mod Boot
pub mod Common
pub mod Config
pub mod Device
pub mod Fw
pub mod Io
pub mod Modbus
pub mod Net
pub mod Regs
pub mod Storage
pub mod Util
pub mod Web
