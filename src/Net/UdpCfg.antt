-- ===== src/Net/UdpCfg.antt =====
-- src/net/udp_cfg.c, and udp_cfg_recv of src/net/udp_task.c, which calls it. The clock's value
-- (udp_now_ms) is an argument, as is what lwIP says (whether a buffer is there for the answer); the
-- version comes from the build, and the commands of an upgrade, `fw_udp_cmd`, from fw_udp.c.
pub mod Packets
pub mod Replies
pub mod Reset
mod Tests
use io_edge_hub_freertos.Common.{
  ℕ, ◌+◌, ◌-◌, ◌*◌, ◌^◌, Bool, true, false, not, ◌&&◌, ◌||◌, List, [], ◌∷◌, ◌++◌, length, take,
  drop,
}
use io_edge_hub_freertos.Common.{
  byte_at, bit_or, bit_and, u8, u16, u32, ◌<<◌, ltb, leb, ◌==◌, if◌then◌else◌,
}
use io_edge_hub_freertos.Util.Bytes.{get_be16, get_be32, put_be16}
use io_edge_hub_freertos.Regs.{
  Env, Regs, Event, history_sync, reboot, emit, ip_addr_valid, get_holding_reg, update_holding_reg,
}
use io_edge_hub_freertos.Regs.{set_timestamp, holding_reg_save}
use io_edge_hub_freertos.Regs.Index.{ip_octet1_idx, slave_id_idx, rs485_baudrate_idx}

-- The constants of the build.
pub record Version : Type 0 where
  pub major : ℕ
  pub minor : ℕ
  pub patch : ℕ
  pub git : List ℕ

-- The statics of the file, with the registers they are used on.
pub record Udp (S : Type 0) : Type 0 where
  pub regs : Regs S
  pub pending_ms : ℕ
  pub confirmed : Bool
  pub reset_reboot_pending : Bool
  pub reboot_reboot_pending : Bool

-- The answer's bytes; none is the return of 0.
unfoldable pub reply_ok : ℕ → ℕ → ℕ → List ℕ
reply_ok cap cmd ok = if ltb cap 2 then [] else cmd ∷ ok ∷ []

-- The answer of UDP_CMD_GET_VERSION.
unfoldable pub version_reply : Version → ℕ → ℕ → List ℕ
version_reply ver cap cmd =
    let text =
      cmd
      ∷ 118
      ∷ u8 (48 + ver.major)
      ∷ 46
      ∷ u8 (48 + ver.minor)
      ∷ 46
      ∷ u8 (48 + ver.patch)
      ∷ 95
      ∷ take 6 ver.git in
    if ltb cap 2
    then []
    else if ltb (u16 (cap - 2)) 1
    then []
    else if ltb (u16 (cap + 2 ^ 16 - 4)) 1
    then []
    else if ltb (u16 (cap + 2 ^ 16 - 6)) 1
    then []
    else if ltb (u16 (cap + 2 ^ 16 - 8)) 6
    then []
    else text

module _ {S : Type 0} where
  unfoldable pub udp_cfg_reset_pending : Udp S → Udp S
  udp_cfg_reset_pending u = record u {
    pending_ms = 0;
    confirmed = false;
    reset_reboot_pending = false;
    reboot_reboot_pending = false;
  }

  unfoldable pub udp_cfg_reboot_pending : Udp S → Bool
  udp_cfg_reboot_pending u = u.reset_reboot_pending || u.reboot_reboot_pending

  abbrev with_regs : Udp S → Regs S → Udp S
  with_regs u r = record u { regs = r }

  -- The four updates of UDP_CMD_SET_IP.
  unfoldable pub set_ip : Regs S → List ℕ → Regs S
  set_ip r ip =
      let r0 = (update_holding_reg r ip_octet1_idx (byte_at ip 0)).0 in
      let r1 = (update_holding_reg r0 (ip_octet1_idx + 1) (byte_at ip 1)).0 in
      let r2 = (update_holding_reg r1 (ip_octet1_idx + 2) (byte_at ip 2)).0 in
      (update_holding_reg r2 (ip_octet1_idx + 3) (byte_at ip 3)).0

  module _ (env : Env S) (ver : Version) where
    unfoldable pub udp_factory_reset : Udp S → ℕ → ℕ → ℕ → Udp S × List ℕ
    unfolding reply_ok
    udp_factory_reset u now cap cmd =
        let erased : Udp S = record u {
          regs = record (u.regs) { store = env.cfg_erase_all u.regs.store };
          confirmed = false;
          reset_reboot_pending = true;
        } in
        if not u.confirmed && ltb 5000 (u32 (now + 2 ^ 32 - u.pending_ms))
        then (record u { pending_ms = now }, reply_ok cap cmd 0)
        else (erased, reply_ok cap cmd 1)

    unfoldable pub udp_app_cmd : Udp S → ℕ → ℕ → List ℕ → ℕ → Udp S × List ℕ
    unfolding reply_ok version_reply set_ip udp_factory_reset
    udp_app_cmd u now cmd bytes cap =
        let reg : ℕ → ℕ = λ i. u8 (get_holding_reg u.regs i) in
        let valid =
          ip_addr_valid (byte_at bytes 0) (byte_at bytes 1) (byte_at bytes 2) (byte_at bytes 3) in
        let with_ip = holding_reg_save env (set_ip u.regs bytes) in
        let slave = (update_holding_reg u.regs slave_id_idx (byte_at bytes 0)).0 in
        let line = (update_holding_reg slave rs485_baudrate_idx (get_be16 bytes 1)).0 in
        let (timed, ok) = set_timestamp env u.regs (get_be32 bytes 0) in
        if cmd == 0x10
        then if leb 4 (length bytes) && valid
          then (with_regs u with_ip, reply_ok cap cmd 1)
          else (u, reply_ok cap cmd 0)
        else if cmd == 0x11
        then (
          u,
          if ltb cap 5
              then []
              else cmd
                ∷ reg ip_octet1_idx
                ∷ reg (ip_octet1_idx + 1)
                ∷ reg (ip_octet1_idx + 2)
                ∷ reg (ip_octet1_idx + 3)
                ∷ [],
        )
        else if cmd == 0x12
        then if leb 3 (length bytes)
          then (with_regs u (holding_reg_save env line), reply_ok cap cmd 1)
          else (u, reply_ok cap cmd 0)
        else if cmd == 0x13
        then (
          u,
          if ltb cap 4
              then []
              else cmd ∷ reg slave_id_idx ∷ put_be16 (get_holding_reg u.regs rs485_baudrate_idx),
        )
        else if cmd == 0x14
        then if leb 4 (length bytes)
          then (with_regs u timed, reply_ok cap cmd (if ok then 1 else 0))
          else (u, reply_ok cap cmd 0)
        else if cmd == 0x04
        then (u, version_reply ver cap cmd)
        else if cmd == 0x05
        then (record u { reboot_reboot_pending = true }, reply_ok cap cmd 1)
        else if cmd == 0x19
        then udp_factory_reset u now cap cmd
        else (u, [])

-- Where an answer goes.
pub data Answer : Type 0 where
  nothing : Answer
  to_sender : List ℕ → Answer
  to_all : List ℕ → Answer

unfoldable pub udp_cmd_bcast_allowed : ℕ → Bool
udp_cmd_bcast_allowed cmd = cmd == 0x11

module _ {S : Type 0} where
  -- `addr` are the sender's four bytes; a register has 16 bits, and the last 8 of 32 are not compared.
  unfoldable pub same_subnet24 : Regs S → List ℕ → Bool
  same_subnet24 r addr =
      let sender =
        bit_or (bit_or (bit_or (byte_at addr 0) (byte_at addr 1 << 8)) (byte_at addr 2 << 16))
          (byte_at addr 3 << 24) in
      let own =
        bit_or
          (bit_or (get_holding_reg r ip_octet1_idx) (get_holding_reg r (ip_octet1_idx + 1) << 8))
          (u32 (get_holding_reg r (ip_octet1_idx + 2) << 16)) in
      bit_and sender (2 ^ 24 - 1) == bit_and own (2 ^ 24 - 1)

  module _ (env : Env S) (ver : Version) (fw_udp_cmd : List ℕ → Bool) where
    -- `alloc` is whether pbuf_alloc gives a buffer.
    unfoldable pub udp_cfg_recv : Udp S → ℕ → List ℕ → List ℕ → Bool → Udp S × Answer
    unfolding udp_app_cmd udp_cmd_bcast_allowed same_subnet24 udp_cfg_reboot_pending
    udp_cfg_recv u now addr [] alloc = (u, nothing)
    udp_cfg_recv u now addr (cmd ∷ bytes) alloc =
        let same = same_subnet24 u.regs addr in
        let rx = take 1408 (cmd ∷ bytes) in
        let (u', rep) = udp_app_cmd env ver u now cmd (take 1407 bytes) 64 in
        let sent = if same then to_sender rep else to_all rep in
        let restart : Udp S = record u' { regs = emit (emit u'.regs history_sync) reboot } in
        if not same && not (udp_cmd_bcast_allowed cmd)
        then (u, nothing)
        else if fw_udp_cmd rx
        then (u, nothing)
        else if length rep == 0
        then (u', nothing)
        else if not alloc
        then (u', nothing)
        else if udp_cfg_reboot_pending u'
        then (restart, sent)
        else (u', sent)
