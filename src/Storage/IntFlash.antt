-- ===== src/Storage/IntFlash.antt =====
-- src/storage/intflash.c: erasing and programming the microcontroller's own flash. The calls of
-- the HAL are a parameter, with the state that they change. The watchdog and the messages are left
-- out.
pub mod Loops
pub mod Laws
pub mod Success
pub mod Tests
use io_edge_hub_freertos.Common.{
  ℕ, zero, suc, ◌+◌, ◌*◌, ◌/◌, ◌%◌, ◌<◌, ◌≤◌, ◌≡◌, Bool, true, false, ◌&&◌, ◌||◌,
}
use io_edge_hub_freertos.Common.{List, [], ◌∷◌, length, drop, byte_at, u8, u32, ◌>>◌}
use io_edge_hub_freertos.Common.{ltb, leb, ◌==◌, if◌then◌else◌}
use io_edge_hub_freertos.Util.Bytes.{get_le32}
use io_edge_hub_freertos.Config.Flash.{Outside}

-- The HAL's calls, with their success.
pub record Hal (H : Type 0) : Type 0 where
  pub unlock : H → H × Bool
  pub lock : H → H × Bool
  pub erase_sector : H → ℕ → H × Bool
  pub program_word : H → ℕ → ℕ → H × Bool
  pub program_byte : H → ℕ → ℕ → H × Bool

pub record Sector : Type 0 where
  pub addr : ℕ
  pub size : ℕ
  pub sector : ℕ

abbrev pub f4_sector_tab : List Sector
f4_sector_tab =
    record { addr = 0x08000000; size = 0x4000; sector = 0 }
    ∷ record { addr = 0x08004000; size = 0x4000; sector = 1 }
    ∷ record { addr = 0x08008000; size = 0x4000; sector = 2 }
    ∷ record { addr = 0x0800C000; size = 0x4000; sector = 3 }
    ∷ record { addr = 0x08010000; size = 0x10000; sector = 4 }
    ∷ record { addr = 0x08020000; size = 0x20000; sector = 5 }
    ∷ record { addr = 0x08040000; size = 0x20000; sector = 6 }
    ∷ record { addr = 0x08060000; size = 0x20000; sector = 7 }
    ∷ []

-- `(len + 0xFFFu) & ~0xFFFu`
abbrev pub align_4k : ℕ → ℕ
align_4k len = u32 (len + 0xFFF) / 0x1000 * 0x1000

module _ {H : Type 0} (hal : Hal H) where
  -- What a failure in the middle does: the flash is locked again.
  unfoldable pub failed_locked : H → H × Bool
  failed_locked h = ((hal.lock h).0, false)

  -- The loop of `intflash_erase` over the rest of the table.
  unfoldable pub erase_loop : List Sector → H → ℕ → ℕ → H × Bool
  unfolding failed_locked
  erase_loop [] h addr end_addr = hal.lock h
  erase_loop (x ∷ xs) h addr end_addr = elim (leb (x.addr + x.size) addr || leb end_addr x.addr) [
    | true ↦ erase_loop xs h addr end_addr
    | false ↦ elim ((hal.erase_sector h x.sector).1) [
      | true ↦ erase_loop xs (hal.erase_sector h x.sector).0 addr end_addr
      | false ↦ failed_locked (hal.erase_sector h x.sector).0
    ]
  ]

  unfoldable pub intflash_erase : H → ℕ → ℕ → H × Bool
  unfolding erase_loop
  intflash_erase h addr len =
      let end_addr = u32 (addr + align_4k len) in
      let (h', unlocked) = hal.unlock h in
      if len == 0
      then (h, true)
      else if ltb addr 0x08000000 || ltb 0x08080000 end_addr
      then (h, false)
      else if unlocked
      then erase_loop f4_sector_tab h' addr end_addr
      else (h', false)

  -- A round of the loop of `intflash_write` at address `a`: a word where four bytes are left at
  -- an aligned address, else a byte. The third part is the number of bytes.
  unfoldable pub program_next : H → ℕ → List ℕ → H × Bool × ℕ
  program_next h a bytes =
      let (h1, ok1) = hal.program_word h a (get_le32 bytes 0) in
      let (h2, ok2) = hal.program_byte h a (byte_at bytes 0) in
      if (a % 4 == 0) && leb 4 (length bytes) then (h1, ok1, 4) else (h2, ok2, 1)

  -- The loop, with fuel; `bytes` are those left, and the first goes to `a`.
  unfoldable pub write_loop : ℕ → H → ℕ → List ℕ → H × Bool
  unfolding failed_locked
  write_loop zero h a bytes = (h, false)
  write_loop (suc fuel) h a [] = hal.lock h
  write_loop (suc fuel) h a (b ∷ bs) =
      let (h', done, n) = program_next h a (b ∷ bs) in
      elim done [
        | true ↦ write_loop fuel h' (u32 (a + n)) (drop n (b ∷ bs))
        | false ↦ failed_locked h'
      ]

  -- A round takes a byte at least.
  unfoldable pub intflash_write : H → ℕ → List ℕ → H × Bool
  unfolding write_loop
  intflash_write h addr buf =
      let (h', unlocked) = hal.unlock h in
      if unlocked then write_loop (suc (length buf)) h' addr buf else (h', false)

-- What the reference manual says of a sector and of the two program calls, for a part whose byte
-- at an address is `cell`: an erase changes nothing outside its sector, and one that succeeds
-- leaves 0xFF; a program call changes nothing outside its bytes, and one that succeeds stores them
-- where the flash was erased.
module _ {H : Type 0} (hal : Hal H) (cell : H → ℕ → ℕ) where
  pub record IsSector (x : Sector) : Type 0 where
    pub keeps :
        (h : H) (i : ℕ)
        → Outside x.addr x.size i
        → cell (hal.erase_sector h x.sector).0 i ≡ cell h i
    pub blank :
        (h : H) (i : ℕ)
        → (hal.erase_sector h x.sector).1 ≡ true
        → x.addr ≤ i
        → i < x.addr + x.size
        → cell (hal.erase_sector h x.sector).0 i ≡ 255

  abbrev pub AllSectors : List Sector → Type 0
  AllSectors [] = Unit {0}
  AllSectors (x ∷ xs) = IsSector x × AllSectors xs

  pub record IsIntFlash : Type 0 where
    pub sectors : AllSectors f4_sector_tab
    pub unlock_keeps : (h : H) (i : ℕ) → cell (hal.unlock h).0 i ≡ cell h i
    pub lock_keeps : (h : H) (i : ℕ) → cell (hal.lock h).0 i ≡ cell h i
    pub word_keeps :
        (h : H) (a w i : ℕ) → Outside a 4 i → cell (hal.program_word h a w).0 i ≡ cell h i
    pub word_blank :
        (h : H) (a w k : ℕ)
        → a % 4 ≡ 0
        → (hal.program_word h a w).1 ≡ true
        → k < 4
        → cell h (a + k) ≡ 255
        → cell (hal.program_word h a w).0 (a + k) ≡ u8 (w >> (8 * k))
    pub byte_keeps :
        (h : H) (a v i : ℕ) → Outside a 1 i → cell (hal.program_byte h a v).0 i ≡ cell h i
    pub byte_blank :
        (h : H) (a v : ℕ)
        → (hal.program_byte h a v).1 ≡ true
        → cell h a ≡ 255
        → v < 256
        → cell (hal.program_byte h a v).0 a ≡ v
