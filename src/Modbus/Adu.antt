-- ===== src/Modbus/Adu.antt =====
-- src/modbus/mbtcp_adu.c: one Modbus TCP frame in, at most one out. The pointers are not null; a
-- frame is the list of its `in_len` bytes, and the answer is `*out_len` bytes of `out`, `none`
-- where nothing is sent.
pub mod Laws
mod Tests
use io_edge_hub_freertos.Common.{
  ℕ, ◌+◌, ◌-◌, Bool, true, false, not, Option, none, some, List, [], ◌∷◌,
}
use io_edge_hub_freertos.Common.{◌++◌, length, take, drop, byte_at, bit_or, u16, ltb, leb, ◌==◌}
use io_edge_hub_freertos.Common.{if◌then◌else◌}
use io_edge_hub_freertos.Util.Bytes.{get_be16, put_be16}
use io_edge_hub_freertos.Regs.{Env}
use io_edge_hub_freertos.Modbus.Server.{Server, Reply, process, diag_count}
use io_edge_hub_freertos.Modbus.Server.Counters.{no_resp}

-- `MBTCP_ADU_TX_MAX`
abbrev pub tx_max : ℕ
tx_max = 7 + 256

-- The MBAP header.
unfoldable pub mbap : ℕ → ℕ → ℕ → ℕ → List ℕ
mbap trans proto len unit = put_be16 trans ++ (put_be16 proto ++ (put_be16 len ++ (unit ∷ [])))

-- The length of the PDU that is handed on, from the header's length and the bytes received.
unfoldable pub pdu_length : ℕ → ℕ → ℕ
pdu_length mbap_len in_len =
    let clamped = if ltb 256 mbap_len then 256 else mbap_len in
    let pdu_len = if leb 2 clamped then clamped - 2 + 1 else 1 in
    if ltb (in_len - 7) pdu_len then in_len - 7 else pdu_len

module _ {S : Type 0} where
  -- After the decoder: broadcasts and silent drops are counted, anything else is framed.
  unfoldable pub answer : ℕ → ℕ → Reply S → Reply S
  unfolding mbap diag_count
  answer trans unit (s, none) = (diag_count s no_resp, none)
  answer trans unit (s, some rsp) =
      if unit == 0
      then (diag_count s no_resp, none)
      else (s, some (mbap trans 0 (u16 (length rsp + 1)) unit ++ rsp))

  module _ (env : Env S) where
    unfoldable pub adu_process : Server S → List ℕ → ℕ → Reply S
    unfolding mbap pdu_length answer
    adu_process s frame out_cap =
        let trans = get_be16 frame 0 in
        let proto = get_be16 frame 2 in
        let unit = byte_at frame 6 in
        let pdu = take (pdu_length (get_be16 frame 4) (length frame)) (drop 7 frame) in
        if ltb (length frame) 8
        then (s, none)
        else if ltb out_cap tx_max
        then (s, none)
        else if not (proto == 0)
        then (s, some (mbap trans proto 3 unit ++ (bit_or (byte_at frame 7) 0x80 ∷ 4 ∷ [])))
        else answer trans unit (process env s pdu)
