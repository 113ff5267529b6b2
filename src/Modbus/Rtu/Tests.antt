-- ===== src/Modbus/Rtu/Tests.antt =====
-- Frames to the sample server over the serial line.
use io_edge_hub_freertos.Common.{ℕ, ◌≡◌, refl, arith, true, false, some, none}
use io_edge_hub_freertos.Common.{List, [], ◌∷◌, ◌++◌}
use io_edge_hub_freertos.Config.Codec.{IoCfg}
use io_edge_hub_freertos.Regs.Tests.{env}
use io_edge_hub_freertos.Modbus.Server.{process, diag_count, Reply}
use io_edge_hub_freertos.Modbus.Server.Counters.{bus_msg, crc_err, no_resp}
use io_edge_hub_freertos.Modbus.Server.Tests.{server}
use io_edge_hub_freertos.Modbus.Rtu.{Rtu, reset, crc_tx, t35_expired}
use io_edge_hub_freertos.Modbus.Rtu.Serve.{t35_expired_lem, t35_expired_corrupted}

abbrev line : List ℕ → Rtu
line bytes = record {
  rx = bytes;
  rx_overflow = false;
  srv_unit = 1;
  bound_baud = 9600;
  has_tx = true;
  kicks = 0;
}

-- FC03: the serial rate and the device's number
abbrev request : List ℕ
request = 3 ∷ 0 ∷ 8 ∷ 0 ∷ 2 ∷ []

abbrev good : Rtu
good = line ((1 ∷ request) ++ crc_tx (1 ∷ request))

abbrev expected : Reply IoCfg
expected = elim (process env server request).1 [
  | none ↦ (diag_count (process env server request).0 no_resp, none)
  | some rsp ↦ ((process env server request).0, some ((1 ∷ rsp) ++ crc_tx (1 ∷ rsp)))
]

t35_expired_lem_example : t35_expired env good server ≡ (reset good, expected)
t35_expired_lem_example =
    t35_expired_lem env good server 1 request refl refl (omega arith) (omega arith) refl

-- The number of registers arrives as 3.
abbrev bad : Rtu
bad = line ((1 ∷ 3 ∷ 0 ∷ 8 ∷ 0 ∷ 3 ∷ []) ++ crc_tx (1 ∷ request))

t35_expired_corrupted_example :
    t35_expired env bad server
    ≡ (reset bad, (diag_count (diag_count (diag_count server bus_msg) crc_err) no_resp, none))
t35_expired_corrupted_example =
    t35_expired_corrupted env bad server (1 ∷ 3 ∷ 0 ∷ 8 ∷ 0 ∷ []) 2 3 [] refl (omega arith)
      (omega arith) (omega arith) tt (omega arith) (omega arith) refl
