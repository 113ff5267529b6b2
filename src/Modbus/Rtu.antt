-- ===== src/Modbus/Rtu.antt =====
-- src/modbus/rtu_frame.c: the serial frame is collected byte by byte, and checked, served and
-- answered when the line has been silent for 3.5 characters.
pub mod Collect
pub mod Serve
pub mod Timing
mod Tests
use io_edge_hub_freertos.Common.{
  ℕ, zero, suc, ◌+◌, ◌-◌, ◌*◌, ◌/◌, ◌%◌, Bool, true, false, not, ◌||◌, ◌&&◌,
}
use io_edge_hub_freertos.Common.{
  Option, none, some, List, [], ◌∷◌, ◌++◌, length, take, drop, byte_at,
}
use io_edge_hub_freertos.Common.{
  bit_or, bit_and, u8, u16, u32, ltb, leb, ◌==◌, ◌<<◌, ◌>>◌, if◌then◌else◌,
}
use io_edge_hub_freertos.Util.Crc.{crc16_modbus}
use io_edge_hub_freertos.Regs.{Env}
use io_edge_hub_freertos.Modbus.Server.{Server, Reply, process, diag_count}
use io_edge_hub_freertos.Modbus.Server.Counters.{bus_msg, crc_err, no_resp}

-- The statics: `rx` is `rx_buf` up to `rx_len`, `has_tx` is `tx_cb != NULL`, and `kicks` counts
-- the calls of the timer hook `rtu_t35_kick`.
pub record Rtu : Type 0 where
  pub rx : List ℕ
  pub rx_overflow : Bool
  pub srv_unit : ℕ
  pub bound_baud : ℕ
  pub has_tx : Bool
  pub kicks : ℕ

abbrev pub frame_max : ℕ
frame_max = 256

unfoldable pub reset : Rtu → Rtu
reset u = record u { rx = []; rx_overflow = false }

unfoldable pub bind : Rtu → ℕ → ℕ → Bool → Rtu
unfolding reset
bind u unit baud tx = reset (record u { srv_unit = unit; bound_baud = baud; has_tx = tx })

-- The part of `rtu_rx_feed` before the timer is restarted.
unfoldable pub append : Rtu → List ℕ → Rtu
append u bytes =
    let space = frame_max - length u.rx in
    let n = if leb (length bytes) space then length bytes else space in
    if u.rx_overflow
    then u
    else record u { rx = u.rx ++ take n bytes; rx_overflow = ltb n (length bytes) }

unfoldable pub rx_feed : Rtu → List ℕ → Rtu
unfolding append
rx_feed u [] = u
rx_feed u (b ∷ bs) = let u' = append u (b ∷ bs) in record u' { kicks = u.kicks + 1 }

-- The checksum that ends a frame, low byte first, as it is read and as it is sent.
unfoldable pub crc_rx : List ℕ → ℕ
crc_rx f = u16 (bit_or (byte_at f (length f - 2)) (byte_at f (length f - 1) << 8))

unfoldable pub crc_tx : List ℕ → List ℕ
crc_tx f = u8 (bit_and (crc16_modbus f) 0xFF) ∷ u8 (crc16_modbus f >> 8) ∷ []

module _ {S : Type 0} where
  -- The answer to a frame for `unit`, after the decoder.
  unfoldable pub respond : Bool → ℕ → Reply S → Reply S
  unfolding crc_tx diag_count
  respond tx unit (s, none) = (diag_count s no_resp, none)
  respond tx unit (s, some rsp) =
      if unit == 0
      then (diag_count s no_resp, none)
      else if tx
      then (s, some ((unit ∷ rsp) ++ crc_tx (unit ∷ rsp)))
      else (s, none)

  module _ (env : Env S) where
    -- `rtu_t35_expired` on the snapshot of the frame.
    unfoldable pub serve : Rtu → Server S → Reply S
    unfolding crc_rx respond
    serve u s =
        let f = u.rx in
        let unit = byte_at f 0 in
        if length f == 0
        then (s, none)
        else if u.rx_overflow || ltb (length f) 4
        then (diag_count (diag_count s bus_msg) no_resp, none)
        else if not (crc_rx f == crc16_modbus (take (length f - 2) f))
        then (diag_count (diag_count (diag_count s bus_msg) crc_err) no_resp, none)
        else if not (unit == 0) && not (unit == u.srv_unit)
        then (diag_count (diag_count s bus_msg) no_resp, none)
        else respond u.has_tx unit (process env s (take (length f - 3) (drop 1 f)))

    unfoldable pub t35_expired : Rtu → Server S → Rtu × Reply S
    unfolding reset serve
    t35_expired u s = (reset u, serve u s)

-- `rtu_t35_ms`, with the wrap of its 32-bit sums.
unfoldable pub t35_ms : ℕ → ℕ
t35_ms baud =
    let us = u32 (38500000 + baud - 1) / baud in
    if baud == 0 || ltb 19200 baud then 2 else u32 (us + 999) / 1000
