-- ===== src/Regs/Tests.antt =====
-- Registers over a store that is one configuration, on which the laws are applied.
use io_edge_hub_freertos.Common.{◌≡◌, refl, arith, true, false, [], ◌∷◌}
use io_edge_hub_freertos.Config.Codec.{IoCfg}
use io_edge_hub_freertos.Regs.{Env, Regs, holding_init}
use io_edge_hub_freertos.Regs.{holding_reg_save}
use io_edge_hub_freertos.Regs.{ip_is_valid_for_export, ip_addr_valid, poke}
use io_edge_hub_freertos.Regs.Laws.{IsRegs}

abbrev sample : IoCfg
sample = record {
  di_en = 0xFFFF;
  ai_en = 0x000F;
  di_si = 200;
  ai_si = 200;
  his = 0;
  can_id = 0x0111;
  can_bps = 250;
  rs485_bps = 9600;
  slave_id = 1;
  ip0 = 192;
  ip1 = 168;
  ip2 = 12;
  ip3 = 101;
}

abbrev pub env : Env IoCfg
env = record {
  cfg_get = λ s. s;
  cfg_save = λ s c. c;
  cfg_erase_all = λ s. sample;
  rtc_accepts = λ t. true;
}

abbrev pub regs : Regs IoCfg
regs = record {
  holding = holding_init;
  input = 0 ∷ 0 ∷ 0 ∷ 0 ∷ 0 ∷ 0x8001 ∷ [];
  store = sample;
  now = 1700000000;
  events = [];
}

pub regs-IsRegs : IsRegs regs
regs-IsRegs = ground arith

-- The rate of the serial line is changed and saved, and the device starts again.
abbrev changed : Regs IoCfg
changed = poke regs 8 19200

abbrev started : Regs IoCfg → Regs IoCfg
started r = record regs { store = (holding_reg_save env r).store }

valid_ip : ip_is_valid_for_export changed ≡ true
unfolding ip_is_valid_for_export ip_addr_valid
valid_ip = refl

-- The same with an address that ends in 0.
abbrev no_host : Regs IoCfg
no_host = poke changed 13 0

invalid_ip : ip_is_valid_for_export no_host ≡ false
unfolding ip_is_valid_for_export ip_addr_valid
invalid_ip = refl

valid_before : ip_addr_valid 192 168 12 101 ≡ true
unfolding ip_addr_valid
valid_before = refl
