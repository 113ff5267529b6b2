-- ===== src/Device.antt =====
-- src/modbus/regmap.c over src/storage/config_store.c, as src/main.c puts them together: the
-- configuration of the registers lives in the two slots of the flash.
pub mod PowerCycle
mod Tests
use io_edge_hub_freertos.Common.{ℕ, Bool, List, [], ◌∷◌, bit_or, u16, ◌<<◌, ◌>>◌}
use io_edge_hub_freertos.Config.Codec.{IoCfg}
use io_edge_hub_freertos.Config.Flash.{Flash}
use io_edge_hub_freertos.Config.Store.{Store, get, init, save, erase_all}
use io_edge_hub_freertos.Regs.{Env, Regs, holding_init, holding_reg_load, update_holding_reg}
use io_edge_hub_freertos.Regs.Index.{timestamp_hi_idx, timestamp_lo_idx}
use io_edge_hub_freertos.Net.UdpCfg.{Version}

module _ {F : Type 0} (fl : Flash F) (rtc_accepts : ℕ → Bool) where
  -- The store that the registers use: the statics of the configuration store with the flash.
  unfoldable pub store_env : Env (Store × F)
  store_env = record {
    cfg_get = λ s. get s.0;
    cfg_save = λ s c. ((save fl s.0 s.1 c).0, (save fl s.0 s.1 c).1);
    cfg_erase_all = λ s. erase_all fl s.0 s.1;
    rtc_accepts = rtc_accepts;
  }

  -- INPUT_VER_IDX at the start; the version is what the build says.
  unfoldable pub ver_word : Version → ℕ
  ver_word v = u16 (bit_or (bit_or (v.major << 12) (v.minor << 8)) v.patch)

  -- The registers before they are loaded, with the time that the clock gives.
  abbrev pub before_load : Version → ℕ → Store × F → Regs (Store × F)
  before_load ver epoch store = record {
    holding = holding_init;
    input = ver_word ver ∷ 0 ∷ 0 ∷ 0 ∷ 0 ∷ 0 ∷ [];
    store = store;
    now = epoch;
    events = [];
  }

  -- The start: the statics have their before_load values, the store is set up, the registers are loaded
  -- from it, and the two registers of the time are written.
  unfoldable pub power_on : Version → ℕ → F → Regs (Store × F)
  unfolding store_env
  power_on ver epoch f =
      let r = holding_reg_load store_env (before_load ver epoch ((init fl f).0, f)) in
      let r1 = (update_holding_reg r timestamp_hi_idx (u16 (epoch >> 16))).0 in
      (update_holding_reg r1 timestamp_lo_idx (u16 epoch)).0
