-- ===== src/Modbus/Server/Reads.antt =====
-- The four reading function codes, with their loops gone.
use io_edge_hub_freertos.Common.{
  ℕ, zero, suc, ◌+◌, ◌-◌, ◌*◌, ◌/◌, ◌%◌, ◌^◌, ◌≤◌, ◌<◌, ◌≡◌, refl, ◌∙◌, arith,
}
use io_edge_hub_freertos.Common.{Bool, not, ◌||◌, Option, none, some, List, ◌∷◌, length}
use io_edge_hub_freertos.Common.{replicate, length-replicate, byte_at, ltb, leb, ◌==◌}
use io_edge_hub_freertos.Common.{
  if◌then◌else◌, bit_and, get_or, Bool-cases, inl, inr, ltb→lt, ltb→le,
}
use io_edge_hub_freertos.Common.Bits.{bit_at-zero}
use io_edge_hub_freertos.Util.Bytes.{get_be16, get_be16-lt}
use io_edge_hub_freertos.Regs.{coil_rd, discrete_rd, read_holding, get_input_reg}
use io_edge_hub_freertos.Regs.Index.{do_num, di_num, holding_number, input_number}
use io_edge_hub_freertos.Modbus.Server.{Server, Reply, exc_rsp, holding_reg_rd_cb, input_reg_rd_cb}
use io_edge_hub_freertos.Modbus.Server.{read_bits, fc01_coil_read, fc02_di_read, read_regs}
use io_edge_hub_freertos.Modbus.Server.{fc03_hreg_read, fc04_inreg_read}
use io_edge_hub_freertos.Modbus.Server.Loops.{bits_loop, regs_loop}
use io_edge_hub_freertos.Modbus.Server.Loops.Bits.{
  bit_of, bits_loop_total, bits_loop-none, state_bit,
}
use io_edge_hub_freertos.Modbus.Server.Loops.Words.{be_values, regs_loop_total, regs_loop-none}

-- Address and number in a request of two 16-bit values.
abbrev pub addr_of : List ℕ → ℕ
addr_of d = get_be16 d 0

abbrev pub qty_of : List ℕ → ℕ
qty_of d = get_be16 d 2

-- A response to a reading of channels: byte count, then the answers in order, one bit each from
-- the lowest of the first byte on, and zeros up to the last byte's end. The server is unchanged.
pub record IsBits {S : Type 0} (rd : ℕ → Option Bool) (fc : ℕ) (s : Server S) (d : List ℕ)
    (reply : Reply S) : Type 0 where
  pub bytes : List ℕ
  pub replied : reply ≡ (s, some (fc ∷ ((qty_of d - 1) / 8 + 1) ∷ bytes))
  pub size : length bytes ≡ (qty_of d - 1) / 8 + 1
  pub channel : (k : ℕ) → k < qty_of d → bit_of bytes k ≡ state_bit (rd (addr_of d + k))
  pub padding : (k : ℕ) → qty_of d ≤ k → bit_of bytes k ≡ 0

byte_at-zeros : (n i : ℕ) → byte_at (replicate n 0) i ≡ 0
byte_at-zeros zero i = refl
byte_at-zeros (suc n) zero = refl
byte_at-zeros (suc n) (suc i) = byte_at-zeros n i

bit_of-zeros : (n k : ℕ) → bit_of (replicate n 0) k ≡ 0
unfolding bit_of
bit_of-zeros n k = rw (byte_at-zeros n (k / 8)) (bit_at-zero (k % 8))

module _ (limit : ℕ) (rd : ℕ → Option ℕ) (val : ℕ → ℕ) (small : limit < 65535)
    (refuse : (a : ℕ) → limit ≤ a → rd a ≡ none)
    (answers : (a : ℕ) → a < limit → rd a ≡ some (val a)) where
  regs_loop_lem :
      (addr qty : ℕ)
      → 0 < qty
      → qty ≤ 125
      → addr < 5000
      → regs_loop rd qty addr
        ≡ (if ltb limit (addr + qty) then none else some (be_values val qty addr))
  regs_loop_lem addr qty pos hq ha = elim (Bool-cases (ltb limit (addr + qty))) [
    | inl past ↦
        rw past (regs_loop-none rd limit qty addr small refuse (omega arith) (ltb→lt _ _ past) pos)
    | inr fits ↦ rw fits (
        regs_loop_total rd val qty addr (omega arith)
          (λ j p. answers (addr + j) (omega (arith, ltb→le _ _ fits))))
  ]

module _ {S : Type 0} where
  -- The answer to a register read, by the number of registers and what each one holds.
  abbrev pub regs_reply : ℕ → ℕ → (ℕ → ℕ) → Server S → List ℕ → Reply S
  regs_reply fc limit val s d =
      let addr = get_be16 d 0 in
      let qty = get_be16 d 2 in
      if not (length d == 4)
      then (s, none)
      else if qty == 0 || ltb 125 qty
      then exc_rsp s fc 3
      else if leb 5000 addr
      then exc_rsp s fc 1
      else if ltb limit (addr + qty)
      then exc_rsp s fc 2
      else (s, some (fc ∷ (qty * 2) ∷ be_values val qty addr))

  module _ (limit : ℕ) (rd : ℕ → Option ℕ) (val : ℕ → ℕ) (small : limit < 65535)
      (refuse : (a : ℕ) → limit ≤ a → rd a ≡ none)
      (answers : (a : ℕ) → a < limit → rd a ≡ some (val a)) where
    read_regs_lem :
        (fc : ℕ) (s : Server S) (d : List ℕ) → read_regs fc rd s d ≡ regs_reply fc limit val s d
    unfolding read_regs
    read_regs_lem fc s d =
        ground
          (arith, regs_loop_lem limit rd val small refuse answers (get_be16 d 0) (get_be16 d 2))

  -- FC03 on every request: one of another length than 4 is dropped; else it is refused with 03
  -- for a number outside 1..125, with 01 from address 5000 on, and with 02 if it goes past the 18
  -- registers; else the response is the byte count and the registers' values in order, with the
  -- clock in the timestamp registers. The registers are not changed.
  pub fc03_hreg_read_lem :
      (s : Server S) (d : List ℕ)
      → fc03_hreg_read s d ≡ regs_reply 0x03 holding_number (read_holding s.regs) s d
  unfolding fc03_hreg_read holding_reg_rd_cb
  fc03_hreg_read_lem s d =
      read_regs_lem holding_number (holding_reg_rd_cb s.regs) (read_holding s.regs) (omega arith)
        (λ a h. ground arith) (λ a h. ground arith) 0x03 s d

  -- FC04 on every request: one of another length than 4 is dropped; else it is refused with 03
  -- for a number outside 1..125, with 01 from address 5000 on, and with 02 if it goes past the 6
  -- input registers; else the response is the byte count and the registers' values in order. The
  -- registers are not changed.
  fc04_inreg_read_lem :
      (s : Server S) (d : List ℕ)
      → fc04_inreg_read s d ≡ regs_reply 0x04 input_number (get_input_reg s.regs) s d
  unfolding fc04_inreg_read input_reg_rd_cb
  fc04_inreg_read_lem s d =
      read_regs_lem input_number (input_reg_rd_cb s.regs) (get_input_reg s.regs) (omega arith)
        (λ a h. ground arith) (λ a h. ground arith) 0x04 s d

  module _ (limit : ℕ) (rd : ℕ → Option Bool) (small : limit < 2000)
      (refuse : (a : ℕ) → limit ≤ a → rd a ≡ none)
      (answers : (a : ℕ) → a < limit → (b : Bool) × (rd a ≡ some b)) (fc : ℕ) (s : Server S)
      (d : List ℕ) where
    abbrev bits : Option (List ℕ)
    bits = bits_loop rd (qty_of d) (addr_of d) 0 1 0 (replicate ((qty_of d - 1) / 8 + 1) 0)

    read_bits-some :
        (bytes : List ℕ)
        → length d ≡ 4
        → 0 < qty_of d
        → qty_of d ≤ 2000
        → bits ≡ some bytes
        → read_bits fc rd s d ≡ (s, some (fc ∷ ((qty_of d - 1) / 8 + 1) ∷ bytes))
    unfolding read_bits
    read_bits-some bytes four pos most e = ground arith

    pub read_bits-IsBits :
        length d ≡ 4
        → 0 < qty_of d
        → qty_of d ≤ 2000
        → addr_of d + qty_of d ≤ limit
        → IsBits rd fc s d (read_bits fc rd s d)
    read_bits-IsBits four pos most fits =
        let n = (qty_of d - 1) / 8 + 1 in
        let (out, found, size, bit) =
          bits_loop_total rd (qty_of d) (addr_of d) 0 (replicate n 0) (omega arith) (omega arith)
            (omega (arith, length-replicate {A = ℕ} n 0))
            (λ j p. answers (addr_of d + j) (omega arith)) in
        record {
          bytes = out;
          replied = read_bits-some out four pos most found;
          size = size ∙ length-replicate {A = ℕ} n 0;
          channel = λ k h. bit k ∙ ground (arith, bit_of-zeros n k);
          padding = λ k h. bit k ∙ ground (arith, bit_of-zeros n k);
        }

    pub read_bits_past :
        length d ≡ 4
        → 0 < qty_of d
        → qty_of d ≤ 2000
        → limit < addr_of d + qty_of d
        → read_bits fc rd s d ≡ exc_rsp s fc 2
    unfolding read_bits
    read_bits_past four pos most past = ground (
      arith,
      bits_loop-none rd limit (qty_of d) (addr_of d) 0 1 0 (replicate ((qty_of d - 1) / 8 + 1) 0)
          (omega arith) refuse (get_be16-lt d 0) past pos,
    )

  -- FC01: a request for one or more channels that are all among the 8 coils is answered by their
  -- states, one bit each from the lowest of the first byte on, and zeros up to the last byte's
  -- end; the server is unchanged.
  pub fc01_coil_read-IsBits :
      (s : Server S) (d : List ℕ)
      → length d ≡ 4
      → 0 < qty_of d
      → addr_of d + qty_of d ≤ do_num
      → IsBits (coil_rd s.regs) 0x01 s d (fc01_coil_read s d)
  unfolding fc01_coil_read coil_rd
  fc01_coil_read-IsBits s d four pos fits =
      read_bits-IsBits do_num (coil_rd s.regs) (omega arith) (λ a h. ground arith)
        (λ a h. (not (bit_and (get_or s.regs.holding 0 0) (2 ^ a) == 0), ground arith)) 0x01 s d
        four pos (omega arith) fits

  -- FC02: a request for one or more channels that are all among the 16 discrete inputs is
  -- answered by their states, one bit each from the lowest of the first byte on, and zeros up to
  -- the last byte's end; the server is unchanged.
  fc02_di_read-IsBits :
      (s : Server S) (d : List ℕ)
      → length d ≡ 4
      → 0 < qty_of d
      → addr_of d + qty_of d ≤ di_num
      → IsBits (discrete_rd s.regs) 0x02 s d (fc02_di_read s d)
  unfolding fc02_di_read discrete_rd
  fc02_di_read-IsBits s d four pos fits =
      read_bits-IsBits di_num (discrete_rd s.regs) (omega arith) (λ a h. ground arith)
        (λ a h. (not (bit_and (get_or s.regs.input 5 0) (2 ^ a) == 0), ground arith)) 0x02 s d four
        pos (omega arith) fits

  -- FC01 and FC02 both refuse with 02 a request of 1 to 2000 channels that goes past the 16
  -- discrete inputs, however many of the channels exist.
  pub read_bits_past_end :
      (s : Server S) (d : List ℕ)
      → length d ≡ 4
      → 0 < qty_of d
      → qty_of d ≤ 2000
      → di_num < addr_of d + qty_of d
      → (fc01_coil_read s d ≡ exc_rsp s 0x01 2) × (fc02_di_read s d ≡ exc_rsp s 0x02 2)
  unfolding fc01_coil_read coil_rd fc02_di_read discrete_rd
  read_bits_past_end s d four pos most past = (
    read_bits_past do_num (coil_rd s.regs) (omega arith) (λ a h. ground arith)
        (λ a h. (not (bit_and (get_or s.regs.holding 0 0) (2 ^ a) == 0), ground arith)) 0x01 s d
        four pos most (omega arith),
    read_bits_past di_num (discrete_rd s.regs) (omega arith) (λ a h. ground arith)
        (λ a h. (not (bit_and (get_or s.regs.input 5 0) (2 ^ a) == 0), ground arith)) 0x02 s d four
        pos most past,
  )
