-- ===== src/Regs.antt =====
-- src/modbus/regmap.c with the constants of include/init.h: the register arrays, the writes with
-- their side effects, and the exchange with the configuration store. The hooks of
-- include/io_hooks.h that only act on the outside are recorded as events; the configuration
-- store and the outcome of an RTC write are the parameter `Env`. `io_lock` has no counterpart:
-- each operation here runs alone.
pub mod Index
pub mod Laws
pub mod Coils
pub mod Persist
pub mod Tests
use Index.{do_idx, di_enable_idx, ai_enable_idx, di_sample_ms_idx, ai_sample_ms_idx}
use Index.{history_enable_idx, can_id_idx, can_baudrate_idx, rs485_baudrate_idx, slave_id_idx}
use Index.{ip_octet1_idx, timestamp_hi_idx, timestamp_lo_idx, config_save_idx, reboot_idx}
use Index.{input_di_idx, do_num, di_num, holding_number, input_number}
use io_edge_hub_freertos.Common.{ℕ, ◌+◌, ◌-◌, ◌^◌, Bool, true, false, not, ◌&&◌, ◌||◌}
use io_edge_hub_freertos.Common.{Option, none, some, List, [], ◌∷◌, get_or, set, bit_and, bit_or}
use io_edge_hub_freertos.Common.{u8, u16, u32, ◌<<◌, ◌>>◌, ltb, leb, ◌==◌, if◌then◌else◌}
use io_edge_hub_freertos.Config.Codec.{IoCfg}

-- What the hooks do to the outside.
pub data Event : Type 0 where
  set_do : ℕ → Event
  history_enable : Bool → Event
  history_sync reboot : Event
  set_rtc : ℕ → Event

-- The configuration store (get, save, erase_all), and whether the RTC takes a time.
pub record Env (S : Type 0) : Type 0 where
  pub cfg_get : S → IoCfg
  pub cfg_save : S → IoCfg → S
  pub cfg_erase_all : S → S
  pub rtc_accepts : ℕ → Bool

-- `holding_reg[]`, `input_reg[]`, the state of the store, `epoch_cache`, and the events so far,
-- the latest first.
pub record Regs (S : Type 0) : Type 0 where
  pub holding : List ℕ
  pub input : List ℕ
  pub store : S
  pub now : ℕ
  pub events : List Event

-- The initial values of `holding_reg[]`.
abbrev pub holding_init : List ℕ
holding_init =
    0 ∷ 0xFFFF ∷ 0x000F ∷ 200 ∷ 200 ∷ 0 ∷ 0x0111 ∷ 250 ∷ 9600 ∷ 1 ∷ 192 ∷ 168 ∷ 12 ∷ 101 ∷ 0 ∷ 0 ∷ 0
    ∷ 0 ∷ []

-- `ip_addr_valid`; the two middle bytes do not matter.
unfoldable pub ip_addr_valid : ℕ → ℕ → ℕ → ℕ → Bool
ip_addr_valid a b c d =
    if d == 0 || d == 0xFF then false else if a == 0 || a == 127 || leb 224 a then false else true

-- `ts_in_range`
unfoldable pub ts_in_range : ℕ → Bool
ts_in_range t = leb 946684800 t && ltb t 4102444800

-- `WRITE_BIT` on a 16-bit value; `~BIT(n)` has 32 digits.
unfoldable pub write_bit : ℕ → ℕ → Bool → ℕ
write_bit val bit state =
    u16 (if state then bit_or val (2 ^ bit) else bit_and val (2 ^ 32 - 1 - 2 ^ bit))

module _ {S : Type 0} where
  abbrev pub emit : Regs S → Event → Regs S
  emit r e = record r { events = e ∷ r.events }

  abbrev pub poke : Regs S → ℕ → ℕ → Regs S
  poke r addr v = record r { holding = set r.holding addr v }

  unfoldable pub get_holding_reg : Regs S → ℕ → ℕ
  get_holding_reg r addr = if leb holding_number addr then 0 else get_or r.holding addr 0

  unfoldable pub read_holding : Regs S → ℕ → ℕ
  unfolding get_holding_reg
  read_holding r addr =
      if addr == timestamp_hi_idx
      then u16 (u32 r.now >> 16)
      else if addr == timestamp_lo_idx
      then u16 (u32 r.now)
      else get_holding_reg r addr

  -- The second component is false for the code's -1.
  unfoldable pub update_holding_reg : Regs S → ℕ → ℕ → Regs S × Bool
  update_holding_reg r addr reg =
      if leb holding_number addr then (r, false) else (poke r addr reg, true)

  unfoldable pub get_input_reg : Regs S → ℕ → ℕ
  get_input_reg r addr = if leb input_number addr then 0 else get_or r.input addr 0

  unfoldable pub update_input_reg : Regs S → ℕ → ℕ → Regs S × Bool
  update_input_reg r addr reg =
      if leb input_number addr
      then (r, false)
      else (record r { input = set r.input addr reg }, true)

  -- `none` is -1.
  unfoldable pub coil_rd : Regs S → ℕ → Option Bool
  coil_rd r addr =
      if leb do_num addr
      then none
      else some (not (bit_and (get_or r.holding do_idx 0) (2 ^ addr) == 0))

  unfoldable pub discrete_rd : Regs S → ℕ → Option Bool
  discrete_rd r addr =
      if leb di_num addr
      then none
      else some (not (bit_and (get_or r.input input_di_idx 0) (2 ^ addr) == 0))

  unfoldable pub write_do_bit : Regs S → ℕ → Bool → Regs S × Bool
  unfolding write_bit
  write_do_bit r bit state =
      let val = write_bit (get_or r.holding do_idx 0) bit state in
      if leb do_num bit
      then (r, false)
      else (poke (emit r (set_do (bit_and val 0xFF))) do_idx (bit_and val 0xFF), true)

  unfoldable pub ip_is_valid_for_export : Regs S → Bool
  ip_is_valid_for_export r =
      ip_addr_valid (u8 (get_or r.holding ip_octet1_idx 0))
        (u8 (get_or r.holding (ip_octet1_idx + 1) 0)) (u8 (get_or r.holding (ip_octet1_idx + 2) 0))
        (u8 (get_or r.holding (ip_octet1_idx + 3) 0))

  module _ (env : Env S) where
    -- `set_timestamp`: the RTC part is `rtc_accepts`.
    unfoldable pub set_timestamp : Regs S → ℕ → Regs S × Bool
    unfolding ts_in_range
    set_timestamp r t =
        if not (ts_in_range t)
        then (r, false)
        else if not (env.rtc_accepts t)
        then (r, false)
        else (emit (record r { now = u32 t }) (set_rtc t), true)

    unfoldable pub export_cfg : Regs S → IoCfg
    export_cfg r =
        let old = env.cfg_get r.store in
        let ok = ip_is_valid_for_export r in
        record {
          di_en = get_or r.holding di_enable_idx 0;
          ai_en = get_or r.holding ai_enable_idx 0;
          di_si = get_or r.holding di_sample_ms_idx 0;
          ai_si = get_or r.holding ai_sample_ms_idx 0;
          his = get_or r.holding history_enable_idx 0;
          can_id = get_or r.holding can_id_idx 0;
          can_bps = get_or r.holding can_baudrate_idx 0;
          rs485_bps = get_or r.holding rs485_baudrate_idx 0;
          slave_id = get_or r.holding slave_id_idx 0;
          ip0 = if ok then get_or r.holding ip_octet1_idx 0 else old.ip0;
          ip1 = if ok then get_or r.holding (ip_octet1_idx + 1) 0 else old.ip1;
          ip2 = if ok then get_or r.holding (ip_octet1_idx + 2) 0 else old.ip2;
          ip3 = if ok then get_or r.holding (ip_octet1_idx + 3) 0 else old.ip3;
        }

    unfoldable pub holding_reg_save : Regs S → Regs S
    unfolding export_cfg
    holding_reg_save r = record r { store = env.cfg_save r.store (export_cfg r) }

    unfoldable pub load_ip : Regs S → IoCfg → Regs S
    load_ip r c =
        if ip_addr_valid (u8 c.ip0) (u8 c.ip1) (u8 c.ip2) (u8 c.ip3)
        then poke
            (poke (poke (poke r ip_octet1_idx c.ip0) (ip_octet1_idx + 1) c.ip1) (ip_octet1_idx + 2)
              c.ip2)
            (ip_octet1_idx + 3) c.ip3
        else r

    unfoldable pub holding_reg_load : Regs S → Regs S
    unfolding load_ip
    holding_reg_load r =
        let c = env.cfg_get r.store in
        let r1 =
          poke (poke (poke r di_enable_idx c.di_en) ai_enable_idx c.ai_en) di_sample_ms_idx
            c.di_si in
        let r2 =
          poke (poke (poke r1 ai_sample_ms_idx c.ai_si) history_enable_idx c.his) can_id_idx
            c.can_id in
        let r3 =
          poke (poke (poke r2 can_baudrate_idx c.can_bps) rs485_baudrate_idx c.rs485_bps)
            slave_id_idx c.slave_id in
        load_ip r3 c

    -- The `switch` of `io_write_holding`, after the store of `reg`. A write of the slave id only
    -- logs.
    unfoldable pub write_effect : Regs S → ℕ → ℕ → Regs S
    unfolding set_timestamp holding_reg_save
    write_effect r addr reg =
        if addr == do_idx
        then emit r (set_do (bit_and reg 0xFF))
        else if addr == history_enable_idx
        then emit r (history_enable (not (reg == 0)))
        else if addr == timestamp_lo_idx
        then (set_timestamp r (bit_or (u32 (get_or r.holding timestamp_hi_idx 0 << 16)) reg)).0
        else if addr == config_save_idx
        then holding_reg_save (poke r addr 0)
        else if addr == reboot_idx
        then if reg == 0 then poke r addr 0 else emit (emit (poke r addr 0) history_sync) reboot
        else r

    unfoldable pub write_holding : Regs S → ℕ → ℕ → Regs S × Bool
    unfolding write_effect
    write_holding r addr reg =
        if leb holding_number addr
        then (r, false)
        else if get_or r.holding addr 0 == reg
        then (r, true)
        else (write_effect (poke r addr reg) addr reg, true)
