-- ===== src/Device/Tests.antt =====
-- A device whose flash has never been written: the rate of the serial line is changed and saved.
use io_edge_hub_freertos.Common.{ℕ, ◌≡◌, refl, arith, Bool, true, [], ◌∷◌, set}
use io_edge_hub_freertos.Config.Codec.{rec_bytes}
use io_edge_hub_freertos.Config.Store.{
  Store, save, fresh, slot_a, slot_b, program_slot, write_pages, pages_loop,
}
use io_edge_hub_freertos.Config.Store.Tests.{Ram, ram, ram-IsNor, ram_reads, blank, blank-Persisted}
use io_edge_hub_freertos.Regs.{
  Regs, holding_init, export_cfg, write_holding, ip_is_valid_for_export, ip_addr_valid,
}
use io_edge_hub_freertos.Regs.Laws.{IsRegs}
use io_edge_hub_freertos.Regs.Persist.{kept}
use io_edge_hub_freertos.Device.{store_env, power_on}
use io_edge_hub_freertos.Net.UdpCfg.{Version}
use io_edge_hub_freertos.Device.PowerCycle.{power_on-write_holding}

abbrev device : Regs (Store × Ram)
device = record {
  holding = set holding_init 8 19200;
  input = 0 ∷ 0 ∷ 0 ∷ 0 ∷ 0 ∷ 0 ∷ [];
  store = (fresh, blank);
  now = 1700000000;
  events = [];
}

device-IsRegs : IsRegs device
device-IsRegs = ground arith

valid_ip : ip_is_valid_for_export device ≡ true
unfolding ip_is_valid_for_export ip_addr_valid
valid_ip = refl

abbrev rtc : ℕ → Bool
rtc t = true

save_works : (save (ram true) fresh blank (export_cfg (store_env (ram true) rtc) device)).2 ≡ true
unfolding save export_cfg ip_is_valid_for_export store_env ip_addr_valid program_slot write_pages
    pages_loop rec_bytes
save_works = refl

abbrev saved : Ram
saved = (write_holding (store_env (ram true) rtc) device 16 1).0.store.1

abbrev version : Version
version = record { major = 1; minor = 2; patch = 3; git = [] }

power_on-write_holding_example :
    (power_on (ram true) rtc version 1700000100 saved).holding
    ≡ set (set (kept device.holding) 14 0x6553) 15 0xF164
power_on-write_holding_example =
    power_on-write_holding (ram true) (λ f. f) (ram-IsNor true) rtc version 1700000100 device 1
      device-IsRegs (omega arith) (λ e. omega arith) valid_ip (blank-Persisted true) (omega arith)
      save_works (ram_reads true saved slot_a) (ram_reads true saved slot_b)
