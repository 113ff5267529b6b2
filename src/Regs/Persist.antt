-- ===== src/Regs/Persist.antt =====
-- `holding_reg_save` before a restart and `holding_reg_load` after it.
use io_edge_hub_freertos.Common.{ℕ, ◌≡◌, ◌∙◌, true, false, List, [], ◌∷◌}
use io_edge_hub_freertos.Common.{get_or, set, u8}
use io_edge_hub_freertos.Config.Codec.{IoCfg}
use io_edge_hub_freertos.Regs.{Env, Regs, holding_init, holding_reg_save, holding_reg_load, load_ip}
use io_edge_hub_freertos.Regs.{export_cfg, ip_is_valid_for_export, ip_addr_valid}

-- The register array after a start that finds `c` in the store.
abbrev pub loaded : IoCfg → ℕ → ℕ → ℕ → ℕ → List ℕ
loaded c i0 i1 i2 i3 =
    0 ∷ c.di_en ∷ c.ai_en ∷ c.di_si ∷ c.ai_si ∷ c.his ∷ c.can_id ∷ c.can_bps ∷ c.rs485_bps
    ∷ c.slave_id ∷ i0 ∷ i1 ∷ i2 ∷ i3 ∷ 0 ∷ 0 ∷ 0 ∷ 0 ∷ []

-- Those of the registers of `xs` that are configuration; the others as at the start.
abbrev pub kept : List ℕ → List ℕ
kept xs =
    0
    ∷ get_or xs 1 0
    ∷ get_or xs 2 0
    ∷ get_or xs 3 0
    ∷ get_or xs 4 0
    ∷ get_or xs 5 0
    ∷ get_or xs 6 0
    ∷ get_or xs 7 0
    ∷ get_or xs 8 0
    ∷ get_or xs 9 0
    ∷ get_or xs 10 0
    ∷ get_or xs 11 0
    ∷ get_or xs 12 0
    ∷ get_or xs 13 0
    ∷ 0
    ∷ 0
    ∷ 0
    ∷ 0
    ∷ []

module _ {S : Type 0} (env : Env S) where
  module _ (q : Regs S) (c : IoCfg) (e : q.holding ≡ holding_init)
      (f : env.cfg_get q.store ≡ c) where
    pub load_valid :
        ip_addr_valid (u8 c.ip0) (u8 c.ip1) (u8 c.ip2) (u8 c.ip3) ≡ true
        → (holding_reg_load env q).holding ≡ loaded c c.ip0 c.ip1 c.ip2 c.ip3
    unfolding holding_reg_load load_ip
    load_valid h = rw (e, f) (rw h)

    load_invalid :
        ip_addr_valid (u8 c.ip0) (u8 c.ip1) (u8 c.ip2) (u8 c.ip3) ≡ false
        → (holding_reg_load env q).holding ≡ loaded c 192 168 12 101
    unfolding holding_reg_load load_ip
    load_invalid h = rw (e, f) (rw h)

  module _ (r q : Regs S) (law : (s : S) (c : IoCfg) → env.cfg_get (env.cfg_save s c) ≡ c)
      (boot : q.holding ≡ holding_init) (same : q.store ≡ (holding_reg_save env r).store) where
    found : env.cfg_get q.store ≡ export_cfg env r
    unfolding holding_reg_save
    found = rw same (law r.store (export_cfg env r))

    -- A save of registers with a valid address, then a start from the initial registers with that
    -- store, where a store returns next what was saved in it: the thirteen configuration
    -- registers are as they were saved, the others as at any start.
    load-save : ip_is_valid_for_export r ≡ true → (holding_reg_load env q).holding ≡ kept r.holding
    unfolding export_cfg ip_is_valid_for_export
    load-save ok =
        load_valid q (export_cfg env r) boot found (rw (ok, export_cfg) ok) ∙ rw (ok, export_cfg)

    -- A save of registers whose address is not valid, then a start from the initial registers with
    -- that store, where a store returns next what was saved in it and the address stored before was
    -- valid: at the start the four address registers have the one that was stored before, the other
    -- nine configuration registers are as they were saved, and the rest as at any start.
    pub load-save_invalid_ip :
        ip_is_valid_for_export r ≡ false
        → ip_addr_valid
            (u8 (env.cfg_get r.store).ip0)
            (u8 (env.cfg_get r.store).ip1)
            (u8 (env.cfg_get r.store).ip2)
            (u8 (env.cfg_get r.store).ip3)
          ≡ true
        → (holding_reg_load env q).holding
          ≡ set
              (set
                (set
                  (set (kept r.holding) 10 (env.cfg_get r.store).ip0)
                  11
                  (env.cfg_get r.store).ip1)
                12
                (env.cfg_get r.store).ip2)
              13
              (env.cfg_get r.store).ip3
    unfolding export_cfg
    load-save_invalid_ip bad okold =
        load_valid q (export_cfg env r) boot found (rw (bad, export_cfg) okold)
        ∙ rw (bad, export_cfg)
