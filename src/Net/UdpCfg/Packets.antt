-- ===== src/Net/UdpCfg/Packets.antt =====
-- A packet from a network, and what a change of the address means for the next one.
use io_edge_hub_freertos.Common.{ℕ, ◌+◌, ◌*◌, ◌≡◌, ◌≢◌}
use io_edge_hub_freertos.Common.{Bool, List, [], ◌∷◌, AllBelow}
use io_edge_hub_freertos.Regs.{Env, Regs, holding_reg_save}
use io_edge_hub_freertos.Net.UdpCfg.{
  Version, Udp, Answer, nothing, to_sender, to_all, set_ip, udp_cfg_recv,
}

-- An answer that all of the network gets, or none.
abbrev pub IsPublic : Answer → Type 0
IsPublic nothing = Unit {0}
IsPublic (to_all rep) = Unit {0}
IsPublic (to_sender rep) = ⊥

module _ {S : Type 0} (env : Env S) (ver : Version) (fw_udp_cmd : List ℕ → Bool) where
  abbrev changed : Udp S → List ℕ → Udp S
  changed u ip = record u { regs = holding_reg_save env (set_ip u.regs ip) }

  -- A packet: when it comes, the address of its sender, its command and the bytes after it, and
  -- whether there is a buffer for the answer.
  pub record Packet : Type 0 where
    pub now : ℕ
    pub x : ℕ
    pub y : ℕ
    pub z : ℕ
    pub w : ℕ
    pub cmd : ℕ
    pub bytes : List ℕ
    pub alloc : Bool

  abbrev pub receive : Udp S → Packet → Udp S × Answer
  receive u p =
      udp_cfg_recv env ver fw_udp_cmd u p.now (p.x ∷ p.y ∷ p.z ∷ p.w ∷ []) (p.cmd ∷ p.bytes) p.alloc

  -- Packets one after the other.
  abbrev pub receive_all : Udp S → List Packet → Udp S × List Answer
  receive_all u [] = (u, [])
  receive_all u (p ∷ ps) =
      let (u1, a) = receive u p in let (u2, answers) = receive_all u1 ps in (u2, a ∷ answers)

  -- The sender of a packet is in another network than a.b.c.
  abbrev pub IsOutside : ℕ → ℕ → ℕ → Packet → Type 0
  IsOutside a b c p =
      AllBelow 256 (p.x ∷ p.y ∷ p.z ∷ [])
      × (p.x + 256 * p.y + 65536 * p.z ≢ a + 256 * b + 65536 * c)

  abbrev pub AllOutside : ℕ → ℕ → ℕ → List Packet → Type 0
  AllOutside a b c [] = Unit {0}
  AllOutside a b c (p ∷ ps) = IsOutside a b c p × AllOutside a b c ps

  -- Only UDP_CMD_GET_IP is answered, and its answer is a broadcast.
  abbrev pub Shut : List Packet → List Answer → Type 0
  Shut [] [] = Unit {0}
  Shut [] (a ∷ answers) = ⊥
  Shut (p ∷ ps) [] = ⊥
  Shut (p ∷ ps) (a ∷ answers) = IsPublic a × (p.cmd ≢ 0x11 → a ≡ nothing) × Shut ps answers
