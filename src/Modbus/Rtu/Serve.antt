-- ===== src/Modbus/Rtu/Serve.antt =====
-- The serial line: how a collected frame is checked and answered.
use io_edge_hub_freertos.Common.{
  ℕ, ◌+◌, ◌-◌, ◌*◌, ◌/◌, ◌%◌, ◌^◌, ◌≤◌, ◌<◌, ◌≡◌, ◌≢◌, refl, ap, ◌∙◌, arith,
}
use io_edge_hub_freertos.Common.{
  Bool, true, false, not, ◌||◌, ◌&&◌, some, none, List, [], ◌∷◌, ◌++◌,
}
use io_edge_hub_freertos.Common.{
  length, length-append, take, take-append, byte_at, get_or-append_right,
}
use io_edge_hub_freertos.Common.{AllBelow, AllBelow-append, ◌<<◌}
use io_edge_hub_freertos.Common.{◌==◌, if◌then◌else◌}
use io_edge_hub_freertos.Common.Bits.{bit_or_fields, bit_or_comm, bit_and_low}
use io_edge_hub_freertos.Util.Crc.{crc16_modbus}
use io_edge_hub_freertos.Util.Crc.Laws.{crc16_modbus-lt, crc_detects_one_byte}
use io_edge_hub_freertos.Regs.{Env}
use io_edge_hub_freertos.Modbus.Server.{Server, Reply, process, diag_count}
use io_edge_hub_freertos.Modbus.Server.Counters.{bus_msg, crc_err, no_resp}
use io_edge_hub_freertos.Modbus.Rtu.{Rtu, reset, crc_rx, crc_tx, respond, serve}
use io_edge_hub_freertos.Modbus.Rtu.{t35_expired}

-- The checksum at the end of a frame, as it is read.
crc_rx-append :
    (body : List ℕ) (a b : ℕ) → a < 256 → b < 256 → crc_rx (body ++ a ∷ b ∷ []) ≡ b * 256 + a
unfolding crc_rx
crc_rx-append body a b ha hb =
    rw (low, high, bit_or_comm a (b << 8)) (omega (arith, bit_or_fields 8 b a ha))
  where
    size : length (body ++ a ∷ b ∷ []) ≡ length body + 2
    size = length-append body (a ∷ b ∷ [])

    low : byte_at (body ++ a ∷ b ∷ []) (length (body ++ a ∷ b ∷ []) - 2) ≡ a
    low =
        ap (byte_at (body ++ a ∷ b ∷ [])) {x = length (body ++ a ∷ b ∷ []) - 2}
          {y = length body + 0} (omega (arith, size))
        ∙ get_or-append_right body (a ∷ b ∷ []) 0 0

    high : byte_at (body ++ a ∷ b ∷ []) (length (body ++ a ∷ b ∷ []) - 1) ≡ b
    high =
        ap (byte_at (body ++ a ∷ b ∷ [])) {x = length (body ++ a ∷ b ∷ []) - 1}
          {y = length body + 1} (omega (arith, size))
        ∙ get_or-append_right body (a ∷ b ∷ []) 1 0

crc_tx-eq :
    (body : List ℕ)
    → AllBelow 256 body
    → crc_tx body ≡ crc16_modbus body % 256 ∷ crc16_modbus body / 256 ∷ []
unfolding crc_tx
crc_tx-eq body h = ground (arith, crc16_modbus-lt body h, bit_and_low 8 (crc16_modbus body))

module _ {S : Type 0} where
  respond_lem :
      (tx : Bool) (unit : ℕ) (r : Reply S)
      → respond tx unit r ≡ elim r.1 [
        | none ↦ (diag_count r.0 no_resp, none)
        | some rsp ↦
            if unit == 0
            then (diag_count r.0 no_resp, none)
            else if tx
            then (r.0, some ((unit ∷ rsp) ++ crc_tx (unit ∷ rsp)))
            else (r.0, none)
      ]
  unfolding respond
  respond_lem tx unit (s, none) = refl
  respond_lem tx unit (s, some rsp) = refl

  module _ (env : Env S) where
    -- A frame of any checksum bytes, up to the comparison.
    serve_lem :
        (u : Rtu) (s : Server S) (unit a b : ℕ) (pdu : List ℕ)
        → u.rx_overflow ≡ false
        → u.rx ≡ (unit ∷ pdu) ++ (a ∷ b ∷ [])
        → 0 < length pdu
        → a < 256
        → b < 256
        → serve env u s ≡ (
            if not (b * 256 + a == crc16_modbus (unit ∷ pdu))
            then (diag_count (diag_count (diag_count s bus_msg) crc_err) no_resp, none)
            else if not (unit == 0) && not (unit == u.srv_unit)
            then (diag_count (diag_count s bus_msg) no_resp, none)
            else respond u.has_tx unit (process env s pdu))
    unfolding serve
    serve_lem u s unit a b pdu o e pos ha hb = rw (o, e) (ground (arith, read, body, inner, size))
      where
        size : length (pdu ++ (a ∷ b ∷ [])) ≡ length pdu + 2
        size = length-append pdu (a ∷ b ∷ [])

        read : crc_rx ((unit ∷ pdu) ++ (a ∷ b ∷ [])) ≡ b * 256 + a
        read = crc_rx-append (unit ∷ pdu) a b ha hb

        body :
            take (length ((unit ∷ pdu) ++ (a ∷ b ∷ [])) - 2) ((unit ∷ pdu) ++ (a ∷ b ∷ []))
            ≡ unit ∷ pdu
        body = take-append (unit ∷ pdu) (a ∷ b ∷ []) _ (omega (arith, size))

        inner : take (length ((unit ∷ pdu) ++ (a ∷ b ∷ [])) - 3) (pdu ++ (a ∷ b ∷ [])) ≡ pdu
        inner = take-append pdu (a ∷ b ∷ []) _ (omega (arith, size))

    -- A frame whose last two bytes are not the checksum of what stands before them is dropped: no
    -- answer, the registers as they were, and three counters up by one.
    bad_checksum :
        (u : Rtu) (s : Server S) (unit a b : ℕ) (pdu : List ℕ)
        → u.rx_overflow ≡ false
        → u.rx ≡ (unit ∷ pdu) ++ (a ∷ b ∷ [])
        → 0 < length pdu
        → a < 256
        → b < 256
        → b * 256 + a ≢ crc16_modbus (unit ∷ pdu)
        → serve env u s ≡ (diag_count (diag_count (diag_count s bus_msg) crc_err) no_resp, none)
    bad_checksum u s unit a b pdu o e pos ha hb ne =
        serve_lem u s unit a b pdu o e pos ha hb ∙ ground arith

    -- A frame for this device or for all of them, of bytes and with its checksum, is taken from
    -- the buffer and its PDU is given to the decoder: to a broadcast nothing is sent, and for the
    -- device the decoder's answer is sent with the unit in front and its own checksum at the end,
    -- as long as there is a sender; a broadcast and a drop by the decoder are counted as
    -- silences.
    pub t35_expired_lem :
        (u : Rtu) (s : Server S) (unit : ℕ) (pdu : List ℕ)
        → u.rx_overflow ≡ false
        → u.rx ≡ (unit ∷ pdu) ++ crc_tx (unit ∷ pdu)
        → AllBelow 256 (unit ∷ pdu)
        → 0 < length pdu
        → (unit == 0 || unit == u.srv_unit) ≡ true
        → t35_expired env u s ≡ (
          reset u,
          elim (process env s pdu).1 [
            | none ↦ (diag_count (process env s pdu).0 no_resp, none)
            | some rsp ↦
                if unit == 0
                then (diag_count (process env s pdu).0 no_resp, none)
                else if u.has_tx
                then ((process env s pdu).0, some ((unit ∷ rsp) ++ crc_tx (unit ∷ rsp)))
                else ((process env s pdu).0, none)
          ],
        )
    unfolding t35_expired
    t35_expired_lem u s unit pdu o e h pos mine =
        ap (λ r. (reset u, r))
          (serve_lem u s unit (crc % 256) (crc / 256) pdu o
              (e ∙ ap (λ t. (unit ∷ pdu) ++ t) (crc_tx-eq (unit ∷ pdu) h)) pos (omega arith)
              (omega (arith, crc16_modbus-lt (unit ∷ pdu) h))
            ∙ ground arith
            ∙ respond_lem u.has_tx unit (process env s pdu))
      where
        crc : ℕ
        crc = crc16_modbus (unit ∷ pdu)

    dropped :
        (u : Rtu) (s : Server S) (body : List ℕ) (crc : ℕ)
        → u.rx_overflow ≡ false
        → u.rx ≡ body ++ (crc % 256 ∷ crc / 256 ∷ [])
        → 2 ≤ length body
        → crc < 2 ^ 16
        → crc ≢ crc16_modbus body
        → serve env u s ≡ (diag_count (diag_count (diag_count s bus_msg) crc_err) no_resp, none)
    dropped u s [] crc o e two fits ne = absurd (omega arith)
    dropped u s (unit ∷ pdu) crc o e two fits ne =
        bad_checksum u s unit (crc % 256) (crc / 256) pdu o e (omega arith) (omega arith)
          (omega arith) (λ q. ne (omega arith))

    -- A frame that had its checksum, and of which then one byte of the unit or the PDU was changed,
    -- is taken from the buffer and dropped without an answer: the registers stay as they were, and
    -- the counters of messages, of checksum errors and of silences go up.
    pub t35_expired_corrupted :
        (u : Rtu) (s : Server S) (before : List ℕ) (x y : ℕ) (after : List ℕ)
        → u.rx_overflow ≡ false
        → AllBelow 256 before
        → x < 256
        → y < 256
        → AllBelow 256 after
        → x ≢ y
        → 0 < length before + length after
        → u.rx ≡ (before ++ y ∷ after) ++ crc_tx (before ++ x ∷ after)
        → t35_expired env u s
          ≡ (reset u, (diag_count (diag_count (diag_count s bus_msg) crc_err) no_resp, none))
    unfolding t35_expired
    t35_expired_corrupted u s before x y after o p hx hy q ne two e =
        ap (λ r. (reset u, r))
          (dropped u s (before ++ y ∷ after) (crc16_modbus (before ++ x ∷ after)) o
            (e ∙ ap (λ t. (before ++ y ∷ after) ++ t) (crc_tx-eq (before ++ x ∷ after) sent))
            (omega (arith, length-append before (y ∷ after)))
            (crc16_modbus-lt (before ++ x ∷ after) sent)
            (crc_detects_one_byte before x y after p hx hy q ne).0)
      where
        sent : AllBelow 256 (before ++ x ∷ after)
        sent = AllBelow-append 256 before (x ∷ after) p (hx, q)
