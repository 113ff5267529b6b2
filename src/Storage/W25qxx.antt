-- ===== src/Storage/W25qxx.antt =====
-- src/storage/w25qxx.c: the driver of the external flash. The SPI calls of the HAL are a parameter,
-- with the state of the bus and of the part. The lock of the bus and the watchdog are left out.
pub mod Part
pub mod Refine
pub mod Works
pub mod Tests
use io_edge_hub_freertos.Common.{
  ℕ, zero, suc, ◌+◌, ◌-◌, ◌%◌, ◌^◌, Bool, true, false, not, ◌&&◌, ◌||◌, Option, none, some,
}
use io_edge_hub_freertos.Common.{
  List, [], ◌∷◌, ◌++◌, length, byte_at, bit_and, bit_or, u8, u32, ◌<<◌, ◌>>◌, ltb, leb, ◌==◌,
}
use io_edge_hub_freertos.Common.{if◌then◌else◌}
use io_edge_hub_freertos.Config.Flash.{Flash}

-- The chip select, a transmission, a reception and a delay of a millisecond.
pub record Spi (C : Type 0) : Type 0 where
  pub cs_low : C → C
  pub cs_high : C → C
  pub spi_tx : C → List ℕ → C × Bool
  pub spi_rx : C → ℕ → C × Option (List ℕ)
  pub delay : C → C

abbrev pub chip_size : ℕ
chip_size = 0x1000000

-- The unit of an erase, its command and its time limit.
pub record EraseUnit : Type 0 where
  pub chunk : ℕ
  pub cmd : ℕ
  pub tmo : ℕ

unfoldable pub pick : ℕ → ℕ → EraseUnit
pick addr len =
    if (addr % 0x10000 == 0) && leb 0x10000 len
    then record { chunk = 0x10000; cmd = 0xD8; tmo = 16000 }
    else if (addr % 0x8000 == 0) && leb 0x8000 len
    then record { chunk = 0x8000; cmd = 0x52; tmo = 8000 }
    else record { chunk = 0x1000; cmd = 0x20; tmo = 2000 }

module _ {C : Type 0} (spi : Spi C) where
  unfoldable pub spi_cmd_addr : C → ℕ → ℕ → C × Bool
  spi_cmd_addr c cmd addr = spi.spi_tx c (cmd ∷ u8 (addr >> 16) ∷ u8 (addr >> 8) ∷ u8 addr ∷ [])

  unfoldable pub wren : C → C × Bool
  wren c = let (c1, ok) = spi.spi_tx (spi.cs_low c) (0x06 ∷ []) in (spi.cs_high c1, ok)

  -- The loop of `wait_not_busy` over the rounds that are left.
  unfoldable pub wait_loop : ℕ → C → C × Bool
  wait_loop zero c = (c, false)
  wait_loop (suc n) c =
      let (c1, ok) = spi.spi_tx (spi.cs_low c) (0x05 ∷ []) in
      let (c2, sr) = spi.spi_rx c1 1 in
      elim ok [
        | false ↦ (spi.cs_high c1, false)
        | true ↦ elim sr [
          | none ↦ (spi.cs_high c2, false)
          | some bytes ↦ elim (bit_and (byte_at bytes 0) 0x01 == 0) [
            | true ↦ (spi.cs_high c2, true)
            | false ↦ wait_loop n (spi.delay (spi.cs_high c2))
          ]
        ]
      ]

  unfoldable pub wait_not_busy : C → ℕ → C × Bool
  unfolding wait_loop
  wait_not_busy c timeout_ms = wait_loop (suc timeout_ms) c

  -- The loop of `w25_read`, with fuel.
  unfoldable pub read_loop : ℕ → C → ℕ → ℕ → C × Option (List ℕ)
  unfolding spi_cmd_addr
  read_loop zero c addr len = (c, none)
  read_loop (suc fuel) c addr len =
      let chunk = if ltb 0xFFFF len then 0xFFFF else len in
      let (c1, ok) = spi_cmd_addr (spi.cs_low c) 0x03 addr in
      let (c2, got) = spi.spi_rx c1 chunk in
      elim (ltb 0 len) [
        | false ↦ (c, some [])
        | true ↦ elim ok [
          | false ↦ (spi.cs_high c1, none)
          | true ↦ elim got [
            | none ↦ (spi.cs_high c2, none)
            | some bytes ↦
                let (c3, rest) = read_loop fuel (spi.cs_high c2) (addr + chunk) (len - chunk) in
                (c3, elim rest [ none ↦ none | some more ↦ some (bytes ++ more) ])
          ]
        ]
      ]

  -- A round takes a byte at least.
  unfoldable pub w25_read : C → ℕ → ℕ → C × Option (List ℕ)
  unfolding read_loop
  w25_read c addr len =
      if len == 0
      then (c, some [])
      else if leb chip_size addr || ltb (chip_size - addr) len
      then (c, none)
      else read_loop (suc len) c addr len

  unfoldable pub program_page : C → ℕ → List ℕ → C × Bool
  unfolding wren spi_cmd_addr wait_not_busy
  program_page c addr bytes =
      let (c1, enabled) = wren c in
      let (c2, begun) = spi_cmd_addr (spi.cs_low c1) 0x02 addr in
      let (c3, done) = spi.spi_tx c2 bytes in
      if not enabled
      then (c1, false)
      else if not begun
      then (spi.cs_high c2, false)
      else if not done
      then (spi.cs_high c3, false)
      else wait_not_busy (spi.cs_high c3) 50

  unfoldable pub w25_write : C → ℕ → List ℕ → C × Bool
  unfolding program_page
  w25_write c addr bytes =
      let len = length bytes in
      if len == 0
      then (c, true)
      else if ltb 256 len
      then (c, false)
      else if ltb 256 (addr % 256 + len)
      then (c, false)
      else if leb chip_size addr || ltb (chip_size - addr) len
      then (c, false)
      else program_page c addr bytes

  unfoldable pub erase_one : C → ℕ → ℕ → ℕ → C × Bool
  unfolding wren spi_cmd_addr wait_not_busy
  erase_one c addr cmd timeout_ms =
      let (c1, enabled) = wren c in
      let (c2, begun) = spi_cmd_addr (spi.cs_low c1) cmd addr in
      if not enabled
      then (c1, false)
      else if not begun
      then (spi.cs_high c2, false)
      else wait_not_busy (spi.cs_high c2) timeout_ms

  -- The loop of `w25_erase`, with fuel.
  unfoldable pub erase_loop : ℕ → C → ℕ → ℕ → C × Bool
  unfolding pick erase_one
  erase_loop zero c addr len = (c, false)
  erase_loop (suc fuel) c addr len =
      let u = pick addr len in
      let (c1, done) = erase_one c addr u.cmd u.tmo in
      elim (ltb 0 len) [
        | false ↦ (c, true)
        | true ↦ elim done [
          | false ↦ (c1, false)
          | true ↦ erase_loop fuel c1 (addr + u.chunk) (len - u.chunk)
        ]
      ]

  unfoldable pub w25_erase : C → ℕ → ℕ → C × Bool
  unfolding erase_loop
  w25_erase c addr len =
      if len == 0 || (not (addr % 0x1000 == 0) || not (len % 0x1000 == 0))
      then (c, false)
      else if leb chip_size addr || ltb (chip_size - addr) len
      then (c, false)
      else erase_loop (suc len) c addr len

  -- `w25_backend`; a client of the interface reads without a change of the contents.
  unfoldable pub w25_backend : Flash C
  unfolding w25_read w25_erase w25_write
  w25_backend = record {
    read = λ c addr len. (w25_read c addr len).1;
    erase = w25_erase;
    write = w25_write;
  }

  -- The three bytes of the answer are the maker, the type and the size.
  unfoldable pub w25qxx_init : C → C × Bool
  w25qxx_init c =
      let (c1, ok) = spi.spi_tx (spi.cs_low c) (0x9F ∷ []) in
      let (c2, got) = spi.spi_rx c1 3 in
      if not ok then (spi.cs_high c1, false) else elim got [
        | none ↦ (spi.cs_high c2, false)
        | some id ↦ (
          spi.cs_high c2,
          bit_or (bit_or (byte_at id 0 << 16) (byte_at id 1 << 8)) (byte_at id 2) == 0xEF4018,
        )
      ]
