-- ===== src/Modbus/Server/Tests.antt =====
-- Requests to a server over the sample registers.
use io_edge_hub_freertos.Common.{ℕ, ◌≡◌, refl, arith, true, some}
use io_edge_hub_freertos.Common.{List, [], ◌∷◌}
use io_edge_hub_freertos.Util.Bytes.{get_be16}
use io_edge_hub_freertos.Config.Codec.{IoCfg}
use io_edge_hub_freertos.Regs.{get_holding_reg, coil_rd, read_holding}
use io_edge_hub_freertos.Regs.Tests.{env, regs, regs-IsRegs}
use io_edge_hub_freertos.Regs.Index.{holding_number}
use io_edge_hub_freertos.Common.Bits.{bit_at}
use io_edge_hub_freertos.Modbus.Server.{Server, echo}
use io_edge_hub_freertos.Modbus.Server.{fc03_hreg_read, fc15_coils_write, fc16_hregs_write}
use io_edge_hub_freertos.Modbus.Server.Counters.{cleared}
use io_edge_hub_freertos.Modbus.Server.Reads.{regs_reply, fc03_hreg_read_lem}
use io_edge_hub_freertos.Modbus.Server.Writes.{coil_rd-fc15, get_holding_reg-fc16}

abbrev pub server : Server IoCfg
server = record { regs = regs; diag = cleared }

-- FC16: registers 3 and 4 to 100 and 300
abbrev set_rates : List ℕ
set_rates = 0 ∷ 3 ∷ 0 ∷ 2 ∷ 4 ∷ 0 ∷ 100 ∷ 1 ∷ 44 ∷ []

get_holding_reg-fc16_example :
    ((fc16_hregs_write env server set_rates).1 ≡ some (echo 0x10 3 2))
    × (get_holding_reg (fc16_hregs_write env server set_rates).0.regs 4 ≡ 300)
get_holding_reg-fc16_example =
    unfold get_be16 in
    get_holding_reg-fc16 env server set_rates 4 regs-IsRegs (omega arith) refl refl (omega arith)

-- FC15: coils 2, 3 and 4 to 1, 0, 1
abbrev set_coils : List ℕ
set_coils = 0 ∷ 2 ∷ 0 ∷ 3 ∷ 1 ∷ 5 ∷ []

coil_rd-fc15_example :
    ((fc15_coils_write server set_coils).1 ≡ some (echo 0x0F 2 3))
    × (coil_rd (fc15_coils_write server set_coils).0.regs 4 ≡ some true)
coil_rd-fc15_example =
    unfold get_be16 bit_at in
    coil_rd-fc15 server set_coils 4 regs-IsRegs refl refl (omega arith) (omega arith)

abbrev two_from_eight : List ℕ
two_from_eight = 0 ∷ 8 ∷ 0 ∷ 2 ∷ []

fc03_hreg_read_lem_example :
    fc03_hreg_read server two_from_eight
    ≡ regs_reply 0x03 holding_number (read_holding regs) server two_from_eight
fc03_hreg_read_lem_example = fc03_hreg_read_lem server two_from_eight

abbrev eight_channels : List ℕ
eight_channels = 0 ∷ 0 ∷ 0 ∷ 8 ∷ []

abbrev ten_from_eight : List ℕ
ten_from_eight = 0 ∷ 8 ∷ 0 ∷ 10 ∷ []
