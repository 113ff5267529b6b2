-- ===== src/Modbus/Server/Loops.antt =====
-- The loops of the function codes. Each recurs on the rounds left; `none` and `false` are the
-- early return on a callback that fails.
pub mod Bits
pub mod Words
pub mod Writes
pub mod CoilWrites
use io_edge_hub_freertos.Common.{
  ℕ, zero, suc, ◌+◌, ◌*◌, ◌%◌, Bool, true, false, not, Option, none, some,
}
use io_edge_hub_freertos.Common.{
  List, [], ◌∷◌, ◌++◌, byte_at, set, bit_and, bit_or, u8, u16, ◌<<◌, ◌>>◌,
}
use io_edge_hub_freertos.Common.{◌==◌, if◌then◌else◌}
use io_edge_hub_freertos.Util.Bytes.{get_be16, put_be16}
use io_edge_hub_freertos.Regs.{Regs, Env, write_do_bit, write_holding}

-- FC01 and FC02: `mask` is `bit_mask`, `i` the offset of `presp` in the data bytes `buf`.
unfoldable pub bits_loop : (ℕ → Option Bool) → ℕ → ℕ → ℕ → ℕ → ℕ → List ℕ → Option (List ℕ)
bits_loop rd zero addr cntr mask i buf = some buf
bits_loop rd (suc left) addr cntr mask i buf = elim (rd addr) [
  | none ↦ none
  | some state ↦
      let buf' = if state then set buf i (u8 (bit_or (byte_at buf i) mask)) else buf in
      let cntr' = u16 (cntr + 1) in
      let full = cntr' % 8 == 0 in
      bits_loop rd left (u16 (addr + 1)) cntr' (if full then 1 else u8 (mask << 1))
        (if full then i + 1 else i) buf'
]

-- FC03 and FC04: the bytes stored from `presp` on.
unfoldable pub regs_loop : (ℕ → Option ℕ) → ℕ → ℕ → Option (List ℕ)
regs_loop rd zero addr = some []
regs_loop rd (suc left) addr = elim (rd addr) [
  | none ↦ none
  | some reg ↦ elim (regs_loop rd left (u16 (addr + 1))) [
    | none ↦ none
    | some rest ↦ some (put_be16 reg ++ rest)
  ]
]

module _ {S : Type 0} where
  -- FC15: `temp` is the data byte being shifted out, `ix` the offset of the next one.
  unfoldable pub coils_loop : List ℕ → ℕ → ℕ → ℕ → ℕ → ℕ → Regs S → Regs S × Bool
  coils_loop d addr zero cntr temp ix r = (r, true)
  coils_loop d addr (suc left) cntr temp ix r =
      let fetch = cntr % 8 == 0 in
      let temp' = if fetch then byte_at d ix else temp in
      let (r', done) = write_do_bit r (u16 (addr + cntr)) (not (bit_and temp' 1 == 0)) in
      elim done [
        | true ↦
            coils_loop d addr left (cntr + 1) (temp' >> 1) (if fetch then u8 (ix + 1) else ix) r'
        | false ↦ (r', false)
      ]

  -- FC16: `i` is the offset of `prx`.
  unfoldable pub hregs_loop : Env S → List ℕ → ℕ → ℕ → ℕ → ℕ → Regs S → Regs S × Bool
  hregs_loop env d addr zero cntr i r = (r, true)
  hregs_loop env d addr (suc left) cntr i r =
      let (r', done) = write_holding env r (u16 (addr + cntr)) (get_be16 d i) in
      elim done [ true ↦ hregs_loop env d addr left (cntr + 1) (i + 2) r' | false ↦ (r', false) ]
