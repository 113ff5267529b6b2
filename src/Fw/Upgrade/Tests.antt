-- ===== src/Fw/Upgrade/Tests.antt =====
-- A session on the driver over a part in memory.
use io_edge_hub_freertos.Common.{ℕ, ◌≡◌, refl, arith, Bool, true, false, ◌&&◌, Option, some}
use io_edge_hub_freertos.Common.{List, [], ◌∷◌, ◌==◌}
use io_edge_hub_freertos.Common.{replicate}
use io_edge_hub_freertos.Config.Flash.{cells}
use io_edge_hub_freertos.Storage.W25qxx.Tests.{
  Chip, chip_flash, chip_flash-IsNor, chip_reads, chip_writes, blank_chip,
}
use io_edge_hub_freertos.Fw.Upgrade.{Session, Started, upg_start, upg_write}
use io_edge_hub_freertos.Fw.Upgrade.{upg_finish_ex, crc16_ccitt}
use io_edge_hub_freertos.Fw.Upgrade.Image.{image, Receiving, Took, upg_write-Took}
use io_edge_hub_freertos.Fw.Upgrade.Finish.{hash_ok, upg_finish_ex-image}
use io_edge_hub_freertos.Fw.Can.{Key, handle_fw_data}

-- 510 bytes have come, the last 254 of them in the page buffer.
abbrev pub open_session : Session
open_session = record {
  active = true;
  failed = false;
  total = 700;
  written = 256;
  page = replicate 254 7;
}

pub open-Receiving : Receiving chip_flash (λ c. c.mem) open_session blank_chip
open-Receiving = record {
  aligned = refl;
  short = omega arith;
  fits = omega arith;
  blank = λ i lo hi. refl;
}

abbrev pub four : List ℕ
four = 1 ∷ 2 ∷ 3 ∷ 4 ∷ []

upg_write-Took_example :
    Took chip_flash
      (λ c. c.mem)
      chip_flash-IsNor
      chip_writes
      open_session
      blank_chip
      four
      (upg_write chip_flash open_session blank_chip four)
upg_write-Took_example =
    upg_write-Took chip_flash (λ c. c.mem) chip_flash-IsNor chip_writes open_session blank_chip four
      refl refl open-Receiving (omega arith) (omega arith)

abbrev key : List ℕ
key = replicate 32 9

abbrev finished : Session × Chip × Bool
finished = upg_finish_ex chip_flash key open_session blank_chip 0x1234 true

upg_finish_ex-image_example :
    (finished.2 ≡ (
      (510 == 700)
      && ((crc16_ccitt 0 (image chip_flash (λ c. c.mem) open_session blank_chip) == 0x1234)
          && hash_ok chip_flash key finished.1)))
    × (finished.0.active ≡ false)
    × (cells finished.1.mem 0 510 ≡ image chip_flash (λ c. c.mem) open_session blank_chip)
upg_finish_ex-image_example =
    upg_finish_ex-image chip_flash (λ c. c.mem) chip_reads chip_flash-IsNor chip_writes key
      open_session blank_chip 0x1234 refl refl open-Receiving

-- One byte too many.
abbrev too_long : List ℕ
too_long = replicate 191 0

refused_write : (upg_write chip_flash open_session blank_chip too_long).2 ≡ false
unfolding upg_write
refused_write = refl

abbrev idle : Session
idle = record { active = false; failed = false; total = 0; written = 0; page = [] }

abbrev begun : Session × Chip × Started
begun = upg_start chip_flash key idle (record { mem = λ i. 0; got = [] }) 700 (some key)

-- A frame of which 2 bytes count brings the session to 512 bytes.
abbrev frame : List ℕ
frame = 1 ∷ 2 ∷ 0 ∷ 0 ∷ 0 ∷ 0 ∷ 0 ∷ 0 ∷ []

abbrev framed : Session × Chip × Option (List ℕ)
framed = handle_fw_data chip_flash open_session blank_chip frame 2

abbrev key_state : Key
key_state = record { rx_keybuf = replicate 32 0; key_chunk_mask = 0 }
