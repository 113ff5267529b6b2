-- ===== src/Modbus/Server.antt =====
-- src/modbus/mb_server.c: one PDU in, at most one PDU out. A PDU is the list of its bytes, and a
-- response is its valid bytes (`*out_len` of them); `none` is the silent drop.
pub mod Counters
pub mod Loops
pub mod Reads
pub mod Writes
pub mod Tests
use Counters.{Diag, Counter, bus_msg, crc_err, exc, srv_msg, no_resp, count, cleared, counter}
use Loops.{bits_loop, regs_loop, coils_loop, hregs_loop}
use io_edge_hub_freertos.Common.{
  ℕ, zero, suc, ◌+◌, ◌-◌, ◌*◌, ◌/◌, ◌%◌, Bool, true, false, not, ◌||◌,
}
use io_edge_hub_freertos.Common.{
  Option, none, some, List, [], ◌∷◌, ◌++◌, length, replicate, byte_at,
}
use io_edge_hub_freertos.Common.{bit_or, u8, u16, ltb, leb, ◌==◌, if◌then◌else◌}
use io_edge_hub_freertos.Util.Bytes.{get_be16, put_be16}
use io_edge_hub_freertos.Regs.{Regs, Env, coil_rd, discrete_rd, read_holding, get_input_reg}
use io_edge_hub_freertos.Regs.{write_do_bit, write_holding}
use io_edge_hub_freertos.Regs.Index.{holding_number, input_number}

-- The registers and the diagnostic counters.
pub record Server (S : Type 0) : Type 0 where
  pub regs : Regs S
  pub diag : Diag

-- The server after a PDU, with the response.
abbrev pub Reply : Type 0 → Type 0
Reply S = Server S × Option (List ℕ)

-- A response that echoes two 16-bit values.
abbrev pub echo : ℕ → ℕ → ℕ → List ℕ
echo fc a b = fc ∷ (put_be16 a ++ put_be16 b)

module _ {S : Type 0} where
  unfoldable pub diag_count : Server S → Counter → Server S
  unfolding count
  diag_count s c = record s { diag = count s.diag c }

  unfoldable pub exc_rsp : Server S → ℕ → ℕ → Reply S
  unfolding diag_count
  exc_rsp s fc code = (diag_count s exc, some (bit_or fc 0x80 ∷ code ∷ []))

  unfoldable pub holding_reg_rd_cb : Regs S → ℕ → Option ℕ
  holding_reg_rd_cb r addr = if leb holding_number addr then none else some (read_holding r addr)

  unfoldable pub input_reg_rd_cb : Regs S → ℕ → Option ℕ
  input_reg_rd_cb r addr = if leb input_number addr then none else some (get_input_reg r addr)

  -- The common body of FC01 and FC02 over the callback `rd`.
  unfoldable pub read_bits : ℕ → (ℕ → Option Bool) → Server S → List ℕ → Reply S
  unfolding exc_rsp
  read_bits fc rd s d =
      let addr = get_be16 d 0 in
      let qty = get_be16 d 2 in
      let num_bytes = (qty - 1) / 8 + 1 in
      let bits = bits_loop rd qty addr 0 1 0 (replicate num_bytes 0) in
      if not (length d == 4)
      then (s, none)
      else if qty == 0 || ltb 2000 qty
      then exc_rsp s fc 3
      else elim bits [ none ↦ exc_rsp s fc 2 | some bytes ↦ (s, some (fc ∷ u8 num_bytes ∷ bytes)) ]

  unfoldable pub fc01_coil_read : Server S → List ℕ → Reply S
  unfolding read_bits
  fc01_coil_read s d = read_bits 0x01 (coil_rd s.regs) s d

  unfoldable pub fc02_di_read : Server S → List ℕ → Reply S
  unfolding read_bits
  fc02_di_read s d = read_bits 0x02 (discrete_rd s.regs) s d

  -- The common body of FC03 and FC04.
  unfoldable pub read_regs : ℕ → (ℕ → Option ℕ) → Server S → List ℕ → Reply S
  unfolding exc_rsp
  read_regs fc rd s d =
      let addr = get_be16 d 0 in
      let qty = get_be16 d 2 in
      let values = regs_loop rd qty addr in
      if not (length d == 4)
      then (s, none)
      else if qty == 0 || ltb 125 qty
      then exc_rsp s fc 3
      else if leb 5000 addr
      then exc_rsp s fc 1
      else elim values [
        | none ↦ exc_rsp s fc 2
        | some bytes ↦ (s, some (fc ∷ u8 (qty * 2) ∷ bytes))
      ]

  unfoldable pub fc03_hreg_read : Server S → List ℕ → Reply S
  unfolding read_regs
  fc03_hreg_read s d = read_regs 0x03 (holding_reg_rd_cb s.regs) s d

  unfoldable pub fc04_inreg_read : Server S → List ℕ → Reply S
  unfolding read_regs
  fc04_inreg_read s d = read_regs 0x04 (input_reg_rd_cb s.regs) s d

  unfoldable pub fc05_coil_write : Server S → List ℕ → Reply S
  unfolding exc_rsp
  fc05_coil_write s d =
      let addr = get_be16 d 0 in
      let val = get_be16 d 2 in
      let (r, done) = write_do_bit s.regs addr (not (val == 0)) in
      if not (length d == 4)
      then (s, none)
      else if not done
      then exc_rsp (record s { regs = r }) 0x05 2
      else (record s { regs = r }, some (echo 0x05 addr val))

  unfoldable pub fc08_diagnostics : Server S → List ℕ → Reply S
  unfolding exc_rsp cleared counter
  fc08_diagnostics s d =
      let sfunc = get_be16 d 0 in
      let given = get_be16 d 2 in
      if not (length d == 4)
      then (s, none)
      else if sfunc == 0
      then (s, some (echo 0x08 sfunc given))
      else if sfunc == 0x0A
      then (record s { diag = cleared }, some (echo 0x08 sfunc given))
      else if sfunc == 0x0B
      then (s, some (echo 0x08 sfunc (counter s.diag bus_msg)))
      else if sfunc == 0x0C
      then (s, some (echo 0x08 sfunc (counter s.diag crc_err)))
      else if sfunc == 0x0D
      then (s, some (echo 0x08 sfunc (counter s.diag exc)))
      else if sfunc == 0x0E
      then (s, some (echo 0x08 sfunc (counter s.diag srv_msg)))
      else if sfunc == 0x0F
      then (s, some (echo 0x08 sfunc (counter s.diag no_resp)))
      else exc_rsp s 0x08 1

  unfoldable pub fc15_coils_write : Server S → List ℕ → Reply S
  unfolding exc_rsp
  fc15_coils_write s d =
      let addr = get_be16 d 0 in
      let qty = get_be16 d 2 in
      let num_bytes = byte_at d 4 in
      let (r, done) = coils_loop d addr qty 0 0 5 s.regs in
      if ltb (length d) 6
      then (s, none)
      else if qty == 0 || ltb 2000 qty
      then exc_rsp s 0x0F 3
      else if not ((qty - 1) / 8 + 1 == num_bytes) || not (length d == u16 (num_bytes + 5))
      then exc_rsp s 0x0F 3
      else if not done
      then exc_rsp (record s { regs = r }) 0x0F 2
      else (record s { regs = r }, some (echo 0x0F addr qty))

  module _ (env : Env S) where
    unfoldable pub fc06_hreg_write : Server S → List ℕ → Reply S
    unfolding exc_rsp
    fc06_hreg_write s d =
        let addr = get_be16 d 0 in
        let val = get_be16 d 2 in
        let (r, done) = write_holding env s.regs addr val in
        if not (length d == 4)
        then (s, none)
        else if not done
        then exc_rsp (record s { regs = r }) 0x06 2
        else (record s { regs = r }, some (echo 0x06 addr val))

    unfoldable pub fc16_hregs_write : Server S → List ℕ → Reply S
    unfolding exc_rsp
    fc16_hregs_write s d =
        let addr = get_be16 d 0 in
        let qty = get_be16 d 2 in
        let num_bytes = byte_at d 4 in
        let (r, done) = hregs_loop env d addr qty 0 5 s.regs in
        if ltb (length d) 6
        then (s, none)
        else if qty == 0 || ltb 125 qty
        then exc_rsp s 0x10 3
        else if leb 5000 addr
        then exc_rsp s 0x10 1
        else if not (length d - 5 == num_bytes)
        then exc_rsp s 0x10 3
        else if not (num_bytes / qty == 2)
        then exc_rsp s 0x10 3
        else if not done
        then exc_rsp (record s { regs = r }) 0x10 2
        else (record s { regs = r }, some (echo 0x10 addr qty))

    -- The `switch` of `mb_server_process`, after the two counters.
    unfoldable pub dispatch : Server S → ℕ → List ℕ → Reply S
    unfolding exc_rsp
    dispatch s fc d =
        if fc == 0x01
        then fc01_coil_read s d
        else if fc == 0x02
        then fc02_di_read s d
        else if fc == 0x03
        then fc03_hreg_read s d
        else if fc == 0x04
        then fc04_inreg_read s d
        else if fc == 0x05
        then fc05_coil_write s d
        else if fc == 0x06
        then fc06_hreg_write s d
        else if fc == 0x08
        then fc08_diagnostics s d
        else if fc == 0x0F
        then fc15_coils_write s d
        else if fc == 0x10
        then fc16_hregs_write s d
        else exc_rsp s fc 1

    unfoldable pub process : Server S → List ℕ → Reply S
    unfolding dispatch diag_count
    process s [] = (s, none)
    process s (fc ∷ d) = dispatch (diag_count (diag_count s bus_msg) srv_msg) fc d
