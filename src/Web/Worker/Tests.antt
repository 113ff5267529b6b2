-- ===== src/Web/Worker/Tests.antt =====
-- An upgrade of six bytes in two frames.
use io_edge_hub_freertos.Common.{
  ℕ, ◌≡◌, refl, arith, Bool, true, false, ◌&&◌, List, [], ◌∷◌, replicate,
}
use io_edge_hub_freertos.Config.Flash.{cells}
use io_edge_hub_freertos.Storage.W25qxx.Tests.{
  Chip, chip_flash, chip_flash-IsNor, chip_reads, chip_writes, blank_chip,
}
use io_edge_hub_freertos.Fw.Upgrade.{crc16_ccitt}
use io_edge_hub_freertos.Fw.Upgrade.Finish.{hash_ok}
use io_edge_hub_freertos.Web.Channel.{Channel}
use io_edge_hub_freertos.Web.Channel.Tests.{
  Sent, recording, no_command, idle_ws, chunks, chunks-AllChunks,
}
use io_edge_hub_freertos.Web.Worker.{Worker, Reply}
use io_edge_hub_freertos.Web.Worker.EndToEnd.{verdict, upload, ws_fw_task-upload}

abbrev key : List ℕ
key = replicate 32 9

abbrev begun : Channel Chip Sent
begun = record {
  ws = idle_ws 0;
  upg = record { active = true; failed = false; total = 6; written = 0; page = [] };
  flash = blank_chip;
  line = [];
}

abbrev mark : Bool → Bool × Bool
mark b = (true, true)

abbrev result : Worker Chip Bool × Reply
result =
    upload chip_flash (λ c. c.mem) key mark recording no_command chip_reads chip_flash-IsNor
      chip_writes begun chunks false

abbrev hash : Bool
hash = hash_ok chip_flash key result.0.flash

ws_fw_task-upload_example :
    (result.1
      ≡ verdict chip_flash
          (λ c. c.mem)
          key
          mark
          recording
          no_command
          chip_reads
          chip_flash-IsNor
          chip_writes
          hash
          true)
    × (result.0.reboot ≡ (hash && true))
    × (cells result.0.flash.mem 0 6 ≡ 1 ∷ 2 ∷ 3 ∷ 4 ∷ 9 ∷ 8 ∷ [])
    × (result.0.upg.active ≡ false)
unfolding crc16_ccitt
ws_fw_task-upload_example =
    ws_fw_task-upload chip_flash (λ c. c.mem) key mark recording no_command chip_reads
      chip_flash-IsNor chip_writes begun chunks false chunks-AllChunks
      (record {
        idle = (refl, refl, refl);
        on = refl;
        sound = refl;
        receiving = record {
          aligned = refl;
          short = omega arith;
          fits = omega arith;
          blank = λ i lo hi. refl;
        };
        checked = refl;
        bounded = omega arith;
      })
      refl refl refl (omega arith)
