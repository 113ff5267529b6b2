-- ===== src/Modbus/Adu/Tests.antt =====
-- Frames to the sample server over TCP.
use io_edge_hub_freertos.Common.{ℕ, ◌+◌, ◌≡◌, arith, some, none, List, [], ◌∷◌, ◌++◌, length}
use io_edge_hub_freertos.Common.{u16}
use io_edge_hub_freertos.Config.Codec.{IoCfg}
use io_edge_hub_freertos.Regs.Tests.{env}
use io_edge_hub_freertos.Modbus.Server.{process, diag_count, Reply}
use io_edge_hub_freertos.Modbus.Server.Counters.{no_resp}
use io_edge_hub_freertos.Modbus.Server.Tests.{server}
use io_edge_hub_freertos.Modbus.Adu.{mbap, adu_process}
use io_edge_hub_freertos.Modbus.Adu.Laws.{adu_process_lem}

-- FC03: the serial rate and the device's number
abbrev request : List ℕ
request = 3 ∷ 0 ∷ 8 ∷ 0 ∷ 2 ∷ []

abbrev expected : Reply IoCfg
expected = elim (process env server request).1 [
  | none ↦ (diag_count (process env server request).0 no_resp, none)
  | some rsp ↦
      ((process env server request).0, some (mbap 0x1234 0 (u16 (length rsp + 1)) 17 ++ rsp))
]

adu_process_lem_example : adu_process env server (mbap 0x1234 0 6 17 ++ request) 263 ≡ expected
adu_process_lem_example =
    adu_process_lem env server 0x1234 17 263 request (omega arith) (omega arith) (omega arith)
      (omega arith)
