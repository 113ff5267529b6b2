-- ===== src/Fw/Can/Commands/Tests.antt =====
-- Commands over CAN on a flash in memory.
use io_edge_hub_freertos.Common.{
  ℕ, suc, ◌≡◌, refl, arith, Bool, true, false, ◌&&◌, List, [], ◌∷◌, ◌++◌, replicate, if◌then◌else◌,
}
use io_edge_hub_freertos.Util.Bytes.{put_le32}
use io_edge_hub_freertos.Config.Store.Tests.{Ram, ram, ram-IsNor, blank}
use io_edge_hub_freertos.Fw.Upgrade.{upg_finish_ex, same_bytes}
use io_edge_hub_freertos.Fw.Upgrade.Image.{image, Receiving}
use io_edge_hub_freertos.Fw.Upgrade.Tests.{open_session}
use io_edge_hub_freertos.Fw.Can.Commands.{Task, platform_start, platform_confirm}
use io_edge_hub_freertos.Fw.Can.Commands.Laws.{
  platform_start-Receiving, platform_confirm-upg_finish_ex,
}

abbrev key : List ℕ
key = replicate 32 9

-- A boot loader that counts the requests and takes each.
abbrev count_requests : ℕ → Bool → ℕ × Bool
count_requests n permanent = (suc n, true)

-- A session that has failed, with a frame in the queue.
abbrev task : Task Ram ℕ
task = record {
  s = record open_session { failed = true };
  flash = blank;
  boot = 0;
  key = record { rx_keybuf = key; key_chunk_mask = 31 };
  fw_q = record { id = 0x103; dlc = 1; bytes = 7 ∷ [] } ∷ [];
  sent = [];
  reset = false;
}

platform_start-Receiving_example :
    let t' = platform_start (ram true) key count_requests 700 task in
    Receiving (ram true) (λ f. f) t'.s t'.flash
    × (image (ram true) (λ f. f) t'.s t'.flash ≡ [])
    × (t'.s.active ≡ true)
    × (t'.s.failed ≡ false)
    × (t'.s.total ≡ 700)
    × (t'.fw_q ≡ [])
    × (t'.sent ≡ [] ++ record { id = 0x102; bytes = put_le32 0 ++ put_le32 0 } ∷ [])
unfolding same_bytes
platform_start-Receiving_example =
    platform_start-Receiving (ram true) (λ f. f) (ram-IsNor true) key count_requests 700 task
      (omega arith) (omega arith) refl (λ full. refl)

platform_confirm-upg_finish_ex_example :
    let ok = task.s.active && (upg_finish_ex (ram true) key task.s task.flash 0 false).2 in
    let t' = platform_confirm (ram true) key count_requests 0 task in
    (t'.boot ≡ (if ok then 1 else 0))
    × (t'.sent
        ≡ []
          ++ record {
            id = 0x102;
            bytes =
                if ok && true then put_le32 3 ++ put_le32 0x55AA55AA else put_le32 5 ++ put_le32 0;
          }
            ∷ [])
    × (t'.fw_q ≡ [])
platform_confirm-upg_finish_ex_example =
    platform_confirm-upg_finish_ex (ram true) key count_requests 0 task
