-- ===== src/Net/UdpCfg/Replies.antt =====
-- What is set is what is asked for next.
use io_edge_hub_freertos.Common.{ℕ, ◌+◌, ◌*◌, ◌/◌, ◌%◌, ◌^◌, ◌≤◌, ◌<◌, ◌≡◌, refl, ◌∙◌, arith}
use io_edge_hub_freertos.Common.{
  Bool, true, not, ◌||◌, List, [], ◌∷◌, length, length-take, AllBelow, get_or, set, byte_at, ltb,
  ◌==◌,
}
use io_edge_hub_freertos.Common.{
  if◌then◌else◌, if_false, get_or-set_self, get_or-set_ne, length-set,
}
use io_edge_hub_freertos.Util.Bytes.{get_be16, put_be16, get_be16-eq}
use io_edge_hub_freertos.Regs.{
  Env, ip_addr_valid, get_holding_reg, update_holding_reg, holding_reg_save,
}
use io_edge_hub_freertos.Regs.Laws.{IsRegs}
use io_edge_hub_freertos.Net.UdpCfg.{Version, Udp, udp_app_cmd}

-- Four entries that follow one another.
pub four_set :
    (xs : List ℕ) (a b c d : ℕ)
    → length xs ≡ 18
    → let ys = set (set (set (set xs 10 a) 11 b) 12 c) 13 d in
      (get_or ys 10 0 ≡ a) × (get_or ys 11 0 ≡ b) × (get_or ys 12 0 ≡ c) × (get_or ys 13 0 ≡ d)
four_set xs a b c d size =
    let x0 = set xs 10 a in
    let x1 = set x0 11 b in
    let x2 = set x1 12 c in
    let l0 = length-set xs 10 a in
    let l1 = length-set x0 11 b in
    let l2 = length-set x1 12 c in
    (
      get_or-set_ne x2 13 10 d 0 (λ e. omega arith)
          ∙ (get_or-set_ne x1 12 10 c 0 (λ e. omega arith)
              ∙ (get_or-set_ne x0 11 10 b 0 (λ e. omega arith)
                  ∙ get_or-set_self xs 10 a 0 (omega arith))),
      get_or-set_ne x2 13 11 d 0 (λ e. omega arith)
          ∙ (get_or-set_ne x1 12 11 c 0 (λ e. omega arith)
              ∙ get_or-set_self x0 11 b 0 (omega (arith, l0))),
      get_or-set_ne x2 13 12 d 0 (λ e. omega arith)
          ∙ get_or-set_self x1 12 c 0 (omega (arith, l0, l1)),
      get_or-set_self x2 13 d 0 (omega (arith, l0, l1, l2)),
    )

low : (a : ℕ) → a < 256 → a % 256 ≡ a
low a h = omega arith

-- The commands of `enum udp_cmd`.
abbrev pub known : ℕ → Bool
known cmd =
    cmd == 0x04
    || cmd == 0x05
    || cmd == 0x10
    || cmd == 0x11
    || cmd == 0x12
    || cmd == 0x13
    || cmd == 0x14
    || cmd == 0x19

module _ {S : Type 0} (env : Env S) (ver : Version) where
  -- UDP_CMD_SET_IP with a valid address, and UDP_CMD_GET_IP next, with room for the answers: the first
  -- is accepted, and the second answers the address that was set.
  pub udp_app_cmd-set_ip :
      (u : Udp S) (now later a b c d cap : ℕ)
      → IsRegs u.regs
      → AllBelow 256 (a ∷ b ∷ c ∷ d ∷ [])
      → ip_addr_valid a b c d ≡ true
      → 5 ≤ cap
      → ((udp_app_cmd env ver u now 0x10 (a ∷ b ∷ c ∷ d ∷ []) cap).1 ≡ 0x10 ∷ 1 ∷ [])
        × ((udp_app_cmd env ver
              (udp_app_cmd env ver u now 0x10 (a ∷ b ∷ c ∷ d ∷ []) cap).0
              later
              0x11
              []
              cap).1
            ≡ 0x11 ∷ a ∷ b ∷ c ∷ d ∷ [])
  unfolding udp_app_cmd holding_reg_save get_holding_reg update_holding_reg
  udp_app_cmd-set_ip u now later a b c d cap ok small valid room =
      let (e0, e1, e2, e3) = four_set u.regs.holding a b c d ok.holding_size in
      rw valid (
        ground arith,
        if_false (ltb cap 5) _ _ (ground arith)
            ∙ (rw (e0, e1, e2, e3)
                (rw (low a small.0, low b small.1.0, low c small.1.1.0, low d small.1.1.1.0) refl)),
      )

  -- The same for the number of the device and the rate of the serial line, with UDP_CMD_SET_MODBUS and
  -- UDP_CMD_GET_MODBUS: the three bytes that were set are answered.
  udp_app_cmd_set_modbus :
      (u : Udp S) (now later id hi lo cap : ℕ)
      → IsRegs u.regs
      → AllBelow 256 (id ∷ hi ∷ lo ∷ [])
      → 4 ≤ cap
      → ((udp_app_cmd env ver u now 0x12 (id ∷ hi ∷ lo ∷ []) cap).1 ≡ 0x12 ∷ 1 ∷ [])
        × ((udp_app_cmd env ver
              (udp_app_cmd env ver u now 0x12 (id ∷ hi ∷ lo ∷ []) cap).0
              later
              0x13
              []
              cap).1
            ≡ 0x13 ∷ id ∷ hi ∷ lo ∷ [])
  unfolding udp_app_cmd holding_reg_save get_holding_reg update_holding_reg put_be16
  udp_app_cmd_set_modbus u now later id hi lo cap ok small room =
      let value : ℕ = get_be16 (id ∷ hi ∷ lo ∷ []) 1 in
      let eq : value ≡ hi * 256 + lo = get_be16-eq (id ∷ hi ∷ lo ∷ []) 1 small.1.0 small.1.1.0 in
      let high : (hi * 256 + lo) / 256 % 256 ≡ hi = omega (arith, small.1.0, small.1.1.0) in
      let bottom : (hi * 256 + lo) % 256 ≡ lo = omega (arith, small.1.1.0) in
      let xs = set u.regs.holding 9 id in
      let size = length-set u.regs.holding 9 id in
      let e8 : get_or (set xs 8 value) 8 0 ≡ value =
        get_or-set_self xs 8 value 0 (omega (arith, size, ok.holding_size)) in
      let e9 : get_or (set xs 8 value) 9 0 ≡ id =
        get_or-set_ne xs 8 9 value 0 (λ e. omega arith)
        ∙ get_or-set_self u.regs.holding 9 id 0 (omega (arith, ok.holding_size)) in
      (
        ground arith,
        if_false (ltb cap 4) _ _ (ground arith)
            ∙ (rw (e8, e9, eq) (rw (low id small.0, high, bottom) refl)),
      )

  -- With room for 14 bytes, and a build whose revision has six characters, every known command is
  -- answered, valid or not, whatever the state and the data, and an unknown one never: an answer has
  -- at most 14 bytes and begins with the command.
  pub udp_app_cmd_answers :
      (u : Udp S) (now cmd : ℕ) (bytes : List ℕ) (cap : ℕ)
      → 14 ≤ cap
      → cap < 2 ^ 16
      → length ver.git ≡ 6
      → ((length (udp_app_cmd env ver u now cmd bytes cap).1 == 0) ≡ not (known cmd))
        × (byte_at (udp_app_cmd env ver u now cmd bytes cap).1 0 ≡ (if known cmd then cmd else 0))
        × (length (udp_app_cmd env ver u now cmd bytes cap).1 ≤ 14)
  unfolding udp_app_cmd put_be16
  udp_app_cmd_answers u now cmd bytes cap room word six =
      let git = length-take 6 ver.git in
      (ground (arith, git), ground (arith, git), ground (arith, git))
