-- ===== src/Device/PowerCycle.antt =====
-- A configuration that was saved through the register map, and the next start.
use io_edge_hub_freertos.Common.{
  ℕ, ◌+◌, ◌^◌, ◌<◌, ◌≡◌, ◌≢◌, refl, sym, ap, ◌∙◌, arith, Bool, true, List, u16, ◌>>◌,
}
use io_edge_hub_freertos.Common.{
  get_or, set, u8, AllBelow-get_or, get_or-set_ne, if_false, ne→==, ◌==◌,
}
use mathlib.Core.Path.{subst}
use io_edge_hub_freertos.Config.Codec.{IsWords, io_error}
use io_edge_hub_freertos.Config.Flash.{Flash, IsNor}
use io_edge_hub_freertos.Config.Store.{Store, init, save, slot_a, slot_b, slot_read}
use io_edge_hub_freertos.Config.Store.Laws.{init-save}
use io_edge_hub_freertos.Config.Store.Slots.{Persisted}
use io_edge_hub_freertos.Regs.{
  Env, Regs, poke, export_cfg, holding_reg_save, write_holding, ip_is_valid_for_export,
  ip_addr_valid, update_holding_reg,
}
use io_edge_hub_freertos.Regs.Index.{config_save_idx, timestamp_hi_idx, timestamp_lo_idx}
use io_edge_hub_freertos.Regs.Laws.{IsRegs, poke-IsRegs}
use io_edge_hub_freertos.Regs.Persist.{kept, loaded, load_valid}
use io_edge_hub_freertos.Device.{store_env, before_load, power_on}
use io_edge_hub_freertos.Net.UdpCfg.{Version}

module _ {F : Type 0} (fl : Flash F) (cell : F → ℕ → ℕ) (nor : IsNor fl cell)
    (rtc_accepts : ℕ → Bool) where
  abbrev env : Env (Store × F)
  env = store_env fl rtc_accepts

  -- The configuration that the registers give is in 16-bit words.
  export_cfg-IsWords :
      (r : Regs (Store × F))
      → IsRegs r
      → ip_is_valid_for_export r ≡ true
      → IsWords (export_cfg env r)
  unfolding export_cfg
  export_cfg-IsWords r ok valid =
      let word : (i : ℕ) → get_or r.holding i 0 < 2 ^ 16 =
        λ i. AllBelow-get_or (2 ^ 16) r.holding i (omega arith) ok.holding_words in
      rw (valid, export_cfg)
        (record {
          di_en_fits = word 1;
          ai_en_fits = word 2;
          di_si_fits = word 3;
          ai_si_fits = word 4;
          his_fits = word 5;
          can_id_fits = word 6;
          can_bps_fits = word 7;
          rs485_bps_fits = word 8;
          slave_id_fits = word 9;
          ip0_fits = word 10;
          ip1_fits = word 11;
          ip2_fits = word 12;
          ip3_fits = word 13;
        })

  -- The registers before they are loaded.
  abbrev begun : Version → ℕ → Regs (Store × F) → Regs (Store × F)
  begun ver epoch r = before_load fl rtc_accepts ver epoch (
    (init fl (save fl r.store.0 r.store.1 (export_cfg env r)).1).0,
    (save fl r.store.0 r.store.1 (export_cfg env r)).1,
  )

  -- The registers with the time in the two that hold it.
  abbrev stamped : ℕ → List ℕ → List ℕ
  stamped epoch holding =
      set (set holding timestamp_hi_idx (u16 (epoch >> 16))) timestamp_lo_idx (u16 epoch)

  address :
      (r : Regs (Store × F))
      → ip_is_valid_for_export r ≡ true
      → ip_addr_valid
          (u8 (export_cfg env r).ip0)
          (u8 (export_cfg env r).ip1)
          (u8 (export_cfg env r).ip2)
          (u8 (export_cfg env r).ip3)
        ≡ true
  unfolding export_cfg ip_is_valid_for_export
  address r valid = rw (valid, export_cfg) valid

  loaded_kept :
      (r : Regs (Store × F))
      → ip_is_valid_for_export r ≡ true
      → loaded
          (export_cfg env r)
          (export_cfg env r).ip0
          (export_cfg env r).ip1
          (export_cfg env r).ip2
          (export_cfg env r).ip3
        ≡ kept r.holding
  unfolding export_cfg
  loaded_kept r valid = rw (valid, export_cfg) refl

  save_kept :
      (ver : Version) (epoch : ℕ) (r : Regs (Store × F))
      → IsRegs r
      → ip_is_valid_for_export r ≡ true
      → Persisted fl cell r.store.0 r.store.1
      → r.store.0.cur_gen + 1 < 2 ^ 32
      → (save fl r.store.0 r.store.1 (export_cfg env r)).2 ≡ true
      → slot_read fl (holding_reg_save env r).store.1 slot_a ≢ io_error
      → slot_read fl (holding_reg_save env r).store.1 slot_b ≢ io_error
      → (power_on fl rtc_accepts ver epoch (holding_reg_save env r).store.1).holding
        ≡ stamped epoch (kept r.holding)
  unfolding power_on holding_reg_save store_env update_holding_reg
  save_kept ver epoch r ok valid live small done ra rb =
      let words = export_cfg-IsWords r ok valid in
      let found =
        init-save fl cell nor r.store.0 r.store.1 (export_cfg env r) live small words done ra rb in
      ap (stamped epoch) (
        load_valid env (begun ver epoch r) (export_cfg env r) refl found.1 (address r valid)
        ∙ loaded_kept r valid)

  -- The register that saves, as the write of `v` to it leaves it.
  abbrev triggered : Regs (Store × F) → ℕ → Regs (Store × F)
  triggered r v = poke (poke r config_save_idx v) config_save_idx 0

  other_register :
      (r : Regs (Store × F)) (v i : ℕ)
      → i ≢ config_save_idx
      → get_or (triggered r v).holding i 0 ≡ get_or r.holding i 0
  other_register r v i ne =
      get_or-set_ne (set r.holding config_save_idx v) config_save_idx i 0 0 (λ e. ne (sym e))
      ∙ get_or-set_ne r.holding config_save_idx i v 0 (λ e. ne (sym e))

  write_holding_saves :
      (r : Regs (Store × F)) (v : ℕ)
      → get_or r.holding config_save_idx 0 ≢ v
      → (write_holding env r config_save_idx v).0 ≡ holding_reg_save env (triggered r v)
  unfolding write_holding
  write_holding_saves r v new =
      ap {A = Regs (Store × F) × Bool} (λ t. t.0)
        (if_false (get_or r.holding config_save_idx 0 == v) _ _
          (ne→== (get_or r.holding config_save_idx 0) v new))

  module _ (r : Regs (Store × F)) (v : ℕ) where
    e : (i : ℕ) → i < 16 → get_or (triggered r v).holding i 0 ≡ get_or r.holding i 0
    e i low = other_register r v i (λ same. omega arith)

    valid_triggered : ip_is_valid_for_export (triggered r v) ≡ ip_is_valid_for_export r
    unfolding ip_is_valid_for_export
    valid_triggered =
        rw (e 10 (omega arith), e 11 (omega arith), e 12 (omega arith), e 13 (omega arith)) refl

    kept_triggered : kept (triggered r v).holding ≡ kept r.holding
    kept_triggered =
        rw
          (
            e 1 (omega arith),
            e 2 (omega arith),
            e 3 (omega arith),
            e 4 (omega arith),
            e 5 (omega arith),
            e 6 (omega arith),
            e 7 (omega arith),
            e 8 (omega arith),
            e 9 (omega arith),
            e 10 (omega arith),
            e 11 (omega arith),
            e 12 (omega arith),
            e 13 (omega arith),
          )
          refl

    export_triggered : export_cfg env (triggered r v) ≡ export_cfg env r
    unfolding export_cfg
    export_triggered =
        rw
          (
            e 1 (omega arith),
            e 2 (omega arith),
            e 3 (omega arith),
            e 4 (omega arith),
            e 5 (omega arith),
            e 6 (omega arith),
            e 7 (omega arith),
            e 8 (omega arith),
            e 9 (omega arith),
            e 10 (omega arith),
            e 11 (omega arith),
            e 12 (omega arith),
            e 13 (omega arith),
            valid_triggered,
          )
          refl

  -- A write of a new value to the register that saves, to valid registers with a valid address, on a
  -- NOR flash with whose slots the statics agree, below the last 32-bit generation, and where the
  -- save succeeds: when the next start can read both slots of the flash that is left, it finds the
  -- thirteen configuration registers as they were, the time of the start in the two registers for it,
  -- and the others as at any start.
  pub power_on-write_holding :
      (ver : Version) (epoch : ℕ) (r : Regs (Store × F)) (v : ℕ)
      → IsRegs r
      → v < 2 ^ 16
      → get_or r.holding config_save_idx 0 ≢ v
      → ip_is_valid_for_export r ≡ true
      → Persisted fl cell r.store.0 r.store.1
      → r.store.0.cur_gen + 1 < 2 ^ 32
      → (save fl r.store.0 r.store.1 (export_cfg env r)).2 ≡ true
      → slot_read fl (write_holding env r config_save_idx v).0.store.1 slot_a ≢ io_error
      → slot_read fl (write_holding env r config_save_idx v).0.store.1 slot_b ≢ io_error
      → (power_on fl rtc_accepts ver epoch
          (write_holding env r config_save_idx v).0.store.1).holding
        ≡ stamped epoch (kept r.holding)
  power_on-write_holding ver epoch r v ok fits new valid live small done ra rb =
      let saved = write_holding_saves r v new in
      let ok' =
        poke-IsRegs env (poke r config_save_idx v) config_save_idx 0 (omega arith)
          (poke-IsRegs env r config_save_idx v fits ok) in
      ap (λ t. (power_on fl rtc_accepts ver epoch t.store.1).holding) saved
      ∙ (save_kept ver epoch (triggered r v) ok' (valid_triggered r v ∙ valid) live small
            (ap (λ c. (save fl r.store.0 r.store.1 c).2) (export_triggered r v) ∙ done)
            (subst (λ (t : Regs (Store × F)). slot_read fl t.store.1 slot_a ≢ io_error) saved ra)
            (subst (λ (t : Regs (Store × F)). slot_read fl t.store.1 slot_b ≢ io_error) saved rb)
          ∙ ap (stamped epoch) (kept_triggered r v))
