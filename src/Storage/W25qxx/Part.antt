-- ===== src/Storage/W25qxx/Part.antt =====
-- What the data sheet of the W25Q128 says of the commands that the driver sends.
use io_edge_hub_freertos.Common.{
  ℕ, ◌+◌, ◌-◌, ◌%◌, ◌<◌, ◌≤◌, ◌≡◌, true, some, List, [], ◌∷◌, length, byte_at,
}
use io_edge_hub_freertos.Config.Flash.{Outside, InPage, cells}
use io_edge_hub_freertos.Storage.W25qxx.{Spi, chip_size, spi_cmd_addr, wren, wait_loop}

-- The erase commands with what they erase.
pub data Erases : ℕ → ℕ → Type 0 where
  sector : Erases 0x20 0x1000
  block32 : Erases 0x52 0x8000
  block64 : Erases 0xD8 0x10000

-- `cell` is the byte at an address, when the part has done what it was told.
module _ {C : Type 0} (spi : Spi C) (cell : C → ℕ → ℕ) where
  -- The bus after a program and an erase command.
  abbrev pub programmed : C → ℕ → List ℕ → C
  programmed c a bs =
      spi.cs_high (spi.spi_tx (spi_cmd_addr spi (spi.cs_low (wren spi c).0) 0x02 a).0 bs).0

  abbrev pub erased : C → ℕ → ℕ → C
  erased c a cmd = spi.cs_high (spi_cmd_addr spi (spi.cs_low (wren spi c).0) cmd a).0

  -- Commands that read, and those that only allow a write, change no byte, whether they fail or not;
  -- a program or an erase command changes none outside its range; and when all of it was sent and
  -- the part then shows that it is not busy, it has done what it was told.
  pub record IsW25 : Type 0 where
    pub read_gives :
        (c : C) (a n : ℕ) (bs : List ℕ)
        → a + n ≤ chip_size
        → (spi_cmd_addr spi (spi.cs_low c) 0x03 a).1 ≡ true
        → (spi.spi_rx (spi_cmd_addr spi (spi.cs_low c) 0x03 a).0 n).1 ≡ some bs
        → bs ≡ cells (cell c) a n
    pub read_keeps :
        (c : C) (a n i : ℕ)
        → cell (spi.cs_high (spi.spi_rx (spi_cmd_addr spi (spi.cs_low c) 0x03 a).0 n).0) i
          ≡ cell c i
    pub wren_keeps : (c : C) (i : ℕ) → cell (wren spi c).0 i ≡ cell c i
    pub status_keeps :
        (c : C) (i : ℕ) → cell (spi.cs_high (spi.spi_tx (spi.cs_low c) (0x05 ∷ [])).0) i ≡ cell c i
    pub status_read_keeps :
        (c : C) (i : ℕ)
        → cell (spi.cs_high (spi.spi_rx (spi.spi_tx (spi.cs_low c) (0x05 ∷ [])).0 1).0) i ≡ cell c i
    pub delay_keeps : (c : C) (i : ℕ) → cell (spi.delay c) i ≡ cell c i
    pub command_keeps :
        (c : C) (a i : ℕ)
        → cell (spi.cs_high (spi_cmd_addr spi (spi.cs_low (wren spi c).0) 0x02 a).0) i ≡ cell c i
    pub program_keeps :
        (c : C) (a : ℕ) (bs : List ℕ) (i : ℕ)
        → InPage a (length bs)
        → a + length bs ≤ chip_size
        → Outside a (length bs) i
        → cell (programmed c a bs) i ≡ cell c i
    pub program_stores :
        (c : C) (a : ℕ) (bs : List ℕ) (n i : ℕ)
        → InPage a (length bs)
        → a + length bs ≤ chip_size
        → (wren spi c).1 ≡ true
        → (spi_cmd_addr spi (spi.cs_low (wren spi c).0) 0x02 a).1 ≡ true
        → (spi.spi_tx (spi_cmd_addr spi (spi.cs_low (wren spi c).0) 0x02 a).0 bs).1 ≡ true
        → (wait_loop spi n (programmed c a bs)).1 ≡ true
        → a ≤ i
        → i < a + length bs
        → cell c i ≡ 255
        → cell (programmed c a bs) i ≡ byte_at bs (i - a)
    pub erase_keeps :
        (c : C) (a cmd size i : ℕ)
        → Erases cmd size
        → a % size ≡ 0
        → a + size ≤ chip_size
        → Outside a size i
        → cell (erased c a cmd) i ≡ cell c i
    pub erase_blanks :
        (c : C) (a cmd size n i : ℕ)
        → Erases cmd size
        → a % size ≡ 0
        → a + size ≤ chip_size
        → (wren spi c).1 ≡ true
        → (spi_cmd_addr spi (spi.cs_low (wren spi c).0) cmd a).1 ≡ true
        → (wait_loop spi n (erased c a cmd)).1 ≡ true
        → a ≤ i
        → i < a + size
        → cell (erased c a cmd) i ≡ 255
