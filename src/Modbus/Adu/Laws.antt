-- ===== src/Modbus/Adu/Laws.antt =====
-- What the TCP framing makes of the decoder's answers.
use io_edge_hub_freertos.Common.{ℕ, ◌+◌, ◌^◌, ◌≤◌, ◌<◌, ◌≡◌, refl, ◌∙◌, arith}
use io_edge_hub_freertos.Common.{
  some, none, List, [], ◌∷◌, ◌++◌, length, take, take_all, drop, byte_at,
}
use io_edge_hub_freertos.Common.{u16, bit_or, ◌==◌, if◌then◌else◌}
use io_edge_hub_freertos.Util.Bytes.{get_be16, put_be16, get-put}
use io_edge_hub_freertos.Regs.{Env}
use io_edge_hub_freertos.Modbus.Server.{Server, Reply, process, diag_count}
use io_edge_hub_freertos.Modbus.Server.Counters.{no_resp}
use io_edge_hub_freertos.Modbus.Adu.{tx_max, mbap, pdu_length, answer, adu_process}

get_be16-put : (v : ℕ) → v < 2 ^ 16 → get_be16 (put_be16 v) 0 ≡ v
get_be16-put v h = (get-put v 0 0 0 h (omega arith) (omega arith) (omega arith)).0

-- The fields of a header, read back from the frame it begins.
header_fields :
    (trans proto len unit : ℕ) (pdu : List ℕ)
    → trans < 2 ^ 16
    → proto < 2 ^ 16
    → len < 2 ^ 16
    → (get_be16 (mbap trans proto len unit ++ pdu) 0 ≡ trans)
      × (get_be16 (mbap trans proto len unit ++ pdu) 2 ≡ proto)
      × (get_be16 (mbap trans proto len unit ++ pdu) 4 ≡ len)
      × (byte_at (mbap trans proto len unit ++ pdu) 6 ≡ unit)
      × (drop 7 (mbap trans proto len unit ++ pdu) ≡ pdu)
      × (length (mbap trans proto len unit ++ pdu) ≡ 7 + length pdu)
unfolding mbap get_be16 put_be16
header_fields trans proto len unit pdu ht hp hl = (
  unfold get_be16 put_be16 in get_be16-put trans ht,
  unfold get_be16 put_be16 in get_be16-put proto hp,
  unfold get_be16 put_be16 in get_be16-put len hl,
  refl,
  refl,
  omega arith,
)

module _ {S : Type 0} (env : Env S) where
  reached :
      (s : Server S) (frame pdu : List ℕ) (trans unit cap : ℕ)
      → get_be16 frame 0 ≡ trans
      → get_be16 frame 2 ≡ 0
      → get_be16 frame 4 ≡ length pdu + 1
      → byte_at frame 6 ≡ unit
      → drop 7 frame ≡ pdu
      → length frame ≡ 7 + length pdu
      → 0 < length pdu
      → length pdu ≤ 255
      → tx_max ≤ cap
      → adu_process env s frame cap ≡ answer trans unit (process env s pdu)
  unfolding adu_process
  reached s frame pdu trans unit cap et ep el eu ed en pos most room = ground (arith, taken)
    where
      taken : take (pdu_length (get_be16 frame 4) (length frame)) (drop 7 frame) ≡ pdu
      taken = rw ed (take_all pdu _ (ground arith))

  answer_lem :
      (trans unit : ℕ) (r : Reply S)
      → answer trans unit r ≡ elim r.1 [
        | none ↦ (diag_count r.0 no_resp, none)
        | some rsp ↦
            if unit == 0
            then (diag_count r.0 no_resp, none)
            else (r.0, some (mbap trans 0 (u16 (length rsp + 1)) unit ++ rsp))
      ]
  unfolding answer
  answer_lem trans unit (s, none) = refl
  answer_lem trans unit (s, some rsp) = refl

  -- A frame whose header has protocol 0 and announces its PDU of 1 to 255 bytes, with room for
  -- any answer: the decoder is given exactly that PDU, and unit 0 gets no answer but the
  -- decoder's effects stand; for another unit the answer carries the transaction and the unit of
  -- the request, protocol 0, the length of the answer with the unit, and the decoder's bytes.
  -- Every silence is counted.
  pub adu_process_lem :
      (s : Server S) (trans unit cap : ℕ) (pdu : List ℕ)
      → trans < 2 ^ 16
      → 0 < length pdu
      → length pdu ≤ 255
      → tx_max ≤ cap
      → adu_process env s (mbap trans 0 (length pdu + 1) unit ++ pdu) cap
        ≡ elim (process env s pdu).1 [
          | none ↦ (diag_count (process env s pdu).0 no_resp, none)
          | some rsp ↦
              if unit == 0
              then (diag_count (process env s pdu).0 no_resp, none)
              else ((process env s pdu).0, some (mbap trans 0 (u16 (length rsp + 1)) unit ++ rsp))
        ]
  adu_process_lem s trans unit cap pdu ht pos most room =
      let (et, ep, el, eu, ed, en) =
        header_fields trans 0 (length pdu + 1) unit pdu ht (omega arith) (omega arith) in
      reached s _ pdu trans unit cap et ep el eu ed en pos most room
      ∙ answer_lem trans unit (process env s pdu)

  -- A frame of at least 8 bytes with another protocol than 0, with room for any answer, is
  -- answered, broadcast or not, by the exception 04 with the transaction, the protocol and the
  -- unit of the request, and the server is left as it was.
  adu_process_wrong_protocol :
      (s : Server S) (trans proto len unit fc cap : ℕ) (rest : List ℕ)
      → trans < 2 ^ 16
      → 0 < proto
      → proto < 2 ^ 16
      → len < 2 ^ 16
      → tx_max ≤ cap
      → adu_process env s (mbap trans proto len unit ++ fc ∷ rest) cap
        ≡ (s, some (mbap trans proto 3 unit ++ (bit_or fc 0x80 ∷ 4 ∷ [])))
  unfolding adu_process mbap
  adu_process_wrong_protocol s trans proto len unit fc cap rest ht pos hp hl room =
      let (et, ep, el, eu, ed, en) = header_fields trans proto len unit (fc ∷ rest) ht hp hl in
      ground arith
