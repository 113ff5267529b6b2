-- ===== src/Modbus/Server/Writes.antt =====
-- FC15 and FC16 as a whole: the answer, and the registers afterwards.
use io_edge_hub_freertos.Common.{ℕ, ◌+◌, ◌-◌, ◌*◌, ◌/◌, ◌≤◌, ◌<◌, ◌≡◌, ◌∙◌, ap, arith}
use io_edge_hub_freertos.Common.{◌&&◌, ◌||◌, some, List, length, byte_at, ltb, leb, ◌==◌}
use io_edge_hub_freertos.Common.{if◌then◌else◌}
use io_edge_hub_freertos.Common.Bits.{bit_at}
use native.Mathlib.Nat.{mul-div_right}
use io_edge_hub_freertos.Util.Bytes.{get_be16}
use io_edge_hub_freertos.Regs.{Env, get_holding_reg, coil_rd}
use io_edge_hub_freertos.Regs.Index.{config_save_idx, do_num, holding_number}
use io_edge_hub_freertos.Regs.Laws.{IsRegs}
use io_edge_hub_freertos.Modbus.Server.{Server, echo, fc15_coils_write, fc16_hregs_write}
use io_edge_hub_freertos.Modbus.Server.Reads.{addr_of, qty_of}
use io_edge_hub_freertos.Modbus.Server.Loops.{coils_loop, hregs_loop}
use io_edge_hub_freertos.Modbus.Server.Loops.Writes.{hregs_loop_accepts, hregs_loop-reads}
use io_edge_hub_freertos.Modbus.Server.Loops.CoilWrites.{coils_loop_accepts, coils_loop-reads}

module _ {S : Type 0} where
  -- FC15 on a well-formed request for coils that exist, at least one: the response echoes address
  -- and number, each coil of the range reads its bit of the data byte, lowest first, and every
  -- other coil reads as before.
  pub coil_rd-fc15 :
      (s : Server S) (d : List ℕ) (j : ℕ)
      → IsRegs s.regs
      → length d ≡ 6
      → byte_at d 4 ≡ 1
      → 0 < qty_of d
      → addr_of d + qty_of d ≤ do_num
      → ((fc15_coils_write s d).1 ≡ some (echo 0x0F (addr_of d) (qty_of d)))
        × (coil_rd (fc15_coils_write s d).0.regs j ≡ (
            if leb (addr_of d) j && ltb j (addr_of d + qty_of d)
            then some (bit_at (j - addr_of d) (byte_at d 5) == 1)
            else coil_rd s.regs j))
  unfolding fc15_coils_write
  coil_rd-fc15 s d j v six one pos fits = (
    ground (arith, accepts),
    ground (arith, accepts, coils_loop-reads d (addr_of d) (qty_of d) 0 0 5 s.regs j v),
  )
    where
      accepts :
          (coils_loop d (addr_of d) (qty_of d) 0 0 5 s.regs).1
          ≡ (qty_of d == 0 || leb (addr_of d + 0 + qty_of d) do_num)
      accepts = coils_loop_accepts d (addr_of d) (qty_of d) 0 0 5 s.regs (omega arith) (omega arith)

  module _ (env : Env S) where
    -- FC16 on a well-formed request for registers below the trigger registers, at least one: the
    -- response echoes address and number, each register of the range reads its value from the
    -- request, and every other register reads as before.
    pub get_holding_reg-fc16 :
        (s : Server S) (d : List ℕ) (j : ℕ)
        → IsRegs s.regs
        → 0 < qty_of d
        → byte_at d 4 ≡ qty_of d * 2
        → length d ≡ 5 + qty_of d * 2
        → addr_of d + qty_of d ≤ config_save_idx
        → ((fc16_hregs_write env s d).1 ≡ some (echo 0x10 (addr_of d) (qty_of d)))
          × (get_holding_reg (fc16_hregs_write env s d).0.regs j ≡ (
              if leb (addr_of d) j && ltb j (addr_of d + qty_of d)
              then get_be16 d (5 + 2 * (j - addr_of d))
              else get_holding_reg s.regs j))
    unfolding fc16_hregs_write
    get_holding_reg-fc16 s d j v pos bytes size fits = (
      ground (arith, accepts, two),
      ground (arith, accepts, two, hregs_loop-reads env d (addr_of d) (qty_of d) 0 5 s.regs j v),
    )
      where
        accepts :
            (hregs_loop env d (addr_of d) (qty_of d) 0 5 s.regs).1
            ≡ (qty_of d == 0 || leb (addr_of d + 0 + qty_of d) holding_number)
        accepts = hregs_loop_accepts env d (addr_of d) (qty_of d) 0 5 s.regs (omega arith)

        two : byte_at d 4 / qty_of d ≡ 2
        two = ap (λ n. n / qty_of d) bytes ∙ mul-div_right 2 pos
