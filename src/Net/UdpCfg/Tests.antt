-- ===== src/Net/UdpCfg/Tests.antt =====
-- A device with the address 192.168.12.101, and a sender in its network.
use io_edge_hub_freertos.Common.{
  ℕ, ◌+◌, ◌^◌, ◌-◌, ◌≡◌, refl, arith, true, false, List, [], ◌∷◌, u32, ltb, if◌then◌else◌,
}
use io_edge_hub_freertos.Config.Codec.{IoCfg}
use io_edge_hub_freertos.Regs.Tests.{env, regs}
use io_edge_hub_freertos.Net.UdpCfg.{
  Version, Udp, Answer, udp_cfg_reset_pending, udp_cfg_reboot_pending, udp_cfg_recv,
}
use io_edge_hub_freertos.Net.UdpCfg.Packets.{Packet}
use io_edge_hub_freertos.Net.UdpCfg.Reset.{
  Command, Run, stop, step, after, erased, reset_at, factory_reset_twice,
  udp_cfg_reboot_pending-Run,
}

abbrev version : Version
version = record { major = 1; minor = 2; patch = 3; git = 97 ∷ 98 ∷ 99 ∷ 100 ∷ 101 ∷ 102 ∷ [] }

abbrev udp : Udp IoCfg
udp = record {
  regs = regs;
  pending_ms = 0;
  confirmed = false;
  reset_reboot_pending = false;
  reboot_reboot_pending = false;
}

abbrev ip : List ℕ
ip = 10 ∷ 0 ∷ 0 ∷ 7 ∷ []

-- An address is asked for between the two commands.
abbrev ask : Command
ask = record { now = 9001; cmd = 0x11; bytes = []; cap = 64 }

abbrev first : Udp IoCfg
first = (after env version udp (reset_at 9000 [] 64)).0

abbrev second : Udp IoCfg
second = (after env version first ask).0

between : Run env version first (ask ∷ []) second
between = step stop

factory_reset_twice_example :
    (after env version udp (reset_at 9000 [] 64)
      ≡ (record udp { pending_ms = 9000 }, 0x19 ∷ 0 ∷ []))
    × (after env version second (reset_at 14000 [] 64) ≡ (
        if ltb 5000 (u32 (14000 + 2 ^ 32 - 9000))
        then (record second { pending_ms = 14000 }, 0x19 ∷ 0 ∷ [])
        else (erased env version second, 0x19 ∷ 1 ∷ [])))
factory_reset_twice_example =
    factory_reset_twice env version udp second 9000 14000 [] [] 64 (ask ∷ []) refl (omega arith)
      (omega arith) between (refl, refl, tt)

udp_cfg_reboot_pending-Run_example :
    udp_cfg_reboot_pending (after env version (udp_cfg_reset_pending udp) ask).0 ≡ false
udp_cfg_reboot_pending-Run_example =
    udp_cfg_reboot_pending-Run env version udp (after env version (udp_cfg_reset_pending udp) ask).0
      (ask ∷ []) (step stop) (refl, refl, tt)

abbrev moved : Udp IoCfg × Answer
moved = udp_cfg_recv env version (λ p. false) udp 1 (192 ∷ 168 ∷ 12 ∷ 3 ∷ []) (0x10 ∷ ip) true

-- The restart that was to follow is dropped, twice; another sender asks for the address.
abbrev later : List (Packet env version (λ p. false))
later =
    record { now = 2; x = 192; y = 168; z = 12; w = 3; cmd = 0x05; bytes = []; alloc = true }
    ∷ record { now = 3; x = 192; y = 168; z = 12; w = 3; cmd = 0x05; bytes = []; alloc = true }
    ∷ record { now = 4; x = 192; y = 168; z = 1; w = 9; cmd = 0x11; bytes = []; alloc = true }
    ∷ []
