-- ===== src/Web/Channel.antt =====
-- src/web/ws.c: frames that arrive on the WebSocket, byte by byte, and what is sent back. The TCP
-- connection (lwIP with the callback `on_close`) is a parameter, as are the flash of the upgrade
-- session and the command of a text frame.
pub mod Bounds
pub mod Empty
pub mod Frames
pub mod Payload
pub mod Pieces
pub mod Upload
pub mod Tests
use io_edge_hub_freertos.Common.{
  ℕ, zero, suc, ◌+◌, ◌-◌, ◌*◌, ◌^◌, ◌%◌, Bool, true, false, not, ◌&&◌, ◌||◌, List, [], ◌∷◌, ◌++◌,
  length,
}
use io_edge_hub_freertos.Common.{
  byte_at, bit_and, bit_or, bit_xor, u8, u16, u32, ◌<<◌, ◌>>◌, ltb, leb, ◌==◌, if◌then◌else◌,
}
use io_edge_hub_freertos.Config.Flash.{Flash}
use io_edge_hub_freertos.Fw.Upgrade.{Session, upg_write}

-- WS_RX_MAX
abbrev pub rx_max : ℕ
rx_max = 10256

-- `enum ws_rx_state`
pub data RxState : Type 0 where
  hdr_bytes len16 len64 mask_bytes payload_bytes : RxState

-- The static `ws`: `hdr`, `mask` and `payload` are the bytes written so far. `hdr_got` is the length
-- of `hdr`, and of `mask` while that is read; `got` is the length of `payload`, which after a text frame
-- ends with its terminating zero until the next header empties it. The times of
-- the next pushes are left out.
pub record Ws : Type 0 where
  pub active : Bool
  pub state : RxState
  pub hdr : List ℕ
  pub op : ℕ
  pub fin : Bool
  pub masked : Bool
  pub mask : List ℕ
  pub plen : ℕ
  pub payload : List ℕ
  pub fw_crc : ℕ

-- `tcp_sndbuf`, `tcp_write`, `tcp_output` and the callback `on_close`.
pub record Tcp (L : Type 0) : Type 0 where
  pub sndbuf : L → ℕ
  pub write : L → List ℕ → L × Bool
  pub output : L → L
  pub on_close : L → L

-- What the frames change: the channel, the upgrade session with its flash, and the connection.
pub record Channel (F L : Type 0) : Type 0 where
  pub ws : Ws
  pub upg : Session
  pub flash : F
  pub line : L

unfoldable pub ws_crc16 : ℕ → List ℕ → ℕ
ws_crc16 seed [] = seed
ws_crc16 seed (b ∷ bs) =
    let e = u8 (bit_xor seed b) in
    let f = u8 (bit_xor e (e << 4)) in
    ws_crc16 (u16 (bit_xor (bit_xor (bit_xor (seed >> 8) (f << 8)) (f << 3)) (f >> 4))) bs

-- The header of a frame that is sent; `len` has 32 bits.
unfoldable pub send_header : ℕ → ℕ → List ℕ
send_header opcode len =
    u8 (bit_or 0x80 opcode)
    ∷ (if ltb len 126
        then u8 len ∷ []
        else if leb len 0xFFFF
        then 126 ∷ u8 (len >> 8) ∷ u8 len ∷ []
        else 127
          ∷ u8 (len >> 56)
          ∷ u8 (len >> 48)
          ∷ u8 (len >> 40)
          ∷ u8 (len >> 32)
          ∷ u8 (len >> 24)
          ∷ u8 (len >> 16)
          ∷ u8 (len >> 8)
          ∷ u8 len
          ∷ [])

-- `hdr[0] << 8 | hdr[1]`
unfoldable pub be16 : List ℕ → ℕ
be16 hdr = bit_or (byte_at hdr 0 << 8) (byte_at hdr 1)

-- The loop over the eight length bytes: `v = v << 8 | hdr[i]` in 64 bits.
unfoldable pub len64_loop : ℕ → List ℕ → ℕ
len64_loop v [] = v
len64_loop v (b ∷ bs) = len64_loop (bit_or ((v << 8) % 2 ^ 64) b) bs

-- `state = masked ? WS_MASK : WS_PAYLOAD` with `hdr_got = 0`
unfoldable pub length_known : Ws → Ws
length_known w = record w {
  state = if w.masked then mask_bytes else payload_bytes;
  hdr = [];
  mask = if w.masked then [] else w.mask;
}

module _ {F L : Type 0} (fl : Flash F) (tcp : Tcp L)
    (on_text : Channel F L → List ℕ → Channel F L) where
  unfoldable pub ws_send : Channel F L → ℕ → List ℕ → Channel F L
  unfolding send_header
  ws_send k opcode payload =
      let hdr = send_header opcode (length payload) in
      let (l1, first) = tcp.write k.line hdr in
      let (l2, second) = tcp.write l1 payload in
      if not k.ws.active
      then k
      else if ltb (tcp.sndbuf k.line) (length hdr + length payload)
      then k
      else if not first
      then record k { line = l1 }
      else if length payload == 0
      then record k { line = tcp.output l1 }
      else if second
      then record k { line = tcp.output l2 }
      else record k { line = l2 }

  unfoldable pub ws_close_session : Channel F L → Channel F L
  ws_close_session k =
      if k.ws.active
      then record k { ws = record (k.ws) { active = false }; line = tcp.on_close k.line }
      else k

  -- A data frame goes to the upgrade session.
  unfoldable pub binary_frame : Channel F L → Channel F L
  unfolding ws_crc16
  binary_frame k =
      let (s, f, done) = upg_write fl k.upg k.flash k.ws.payload in
      let crc = if done then ws_crc16 k.ws.fw_crc k.ws.payload else k.ws.fw_crc in
      if k.upg.active
      then record k { ws = record (k.ws) { fw_crc = crc }; upg = s; flash = f }
      else k

  -- `ws.payload[ws.got] = '\0'`
  unfoldable pub terminated : Channel F L → Channel F L
  terminated k = record k { ws = record (k.ws) { payload = k.ws.payload ++ (0 ∷ []) } }

  unfoldable pub ws_frame_done : Channel F L → Channel F L
  unfolding ws_send ws_close_session binary_frame terminated
  ws_frame_done k =
      if not k.ws.fin
      then ws_close_session (ws_send k 8 [])
      else if k.ws.op == 1
      then (if ltb (length k.ws.payload) rx_max then on_text (terminated k) k.ws.payload else k)
      else if k.ws.op == 2
      then binary_frame k
      else if k.ws.op == 8
      then ws_close_session (ws_send k 8 [])
      else if k.ws.op == 9
      then ws_send k 10 k.ws.payload
      else if k.ws.op == 10
      then k
      else ws_close_session k

  abbrev with_ws : Channel F L → Ws → Channel F L
  with_ws k w = record k { ws = w }

  -- WS_HDR, after the second byte.
  unfoldable pub hdr_done : Channel F L → List ℕ → Channel F L
  unfolding length_known ws_close_session
  hdr_done k hdr =
      let w : Ws = record (k.ws) {
        fin = not (bit_and (byte_at hdr 0) 0x80 == 0);
        op = bit_and (byte_at hdr 0) 0x0F;
        masked = not (bit_and (byte_at hdr 1) 0x80 == 0);
        plen = bit_and (byte_at hdr 1) 0x7F;
        payload = [];
        hdr = [];
      } in
      if w.plen == 126
      then with_ws k (record w { state = len16 })
      else if w.plen == 127
      then with_ws k (record w { state = len64 })
      else if ltb rx_max w.plen
      then ws_close_session (with_ws k w)
      else with_ws k (length_known w)

  -- An extended length has been read.
  unfoldable pub len_done : Channel F L → ℕ → Channel F L
  unfolding length_known ws_close_session
  len_done k v =
      if ltb rx_max v
      then ws_close_session k
      else with_ws k (length_known (record (k.ws) { plen = v }))

  -- WS_PAYLOAD
  unfoldable pub payload_byte : Channel F L → ℕ → Channel F L
  unfolding ws_frame_done ws_close_session
  payload_byte k b =
      let idx = length k.ws.payload in
      let plain = if k.ws.masked then u8 (bit_xor b (byte_at k.ws.mask (bit_and idx 3))) else b in
      let w : Ws = record (k.ws) { payload = k.ws.payload ++ (plain ∷ []) } in
      let after = ws_frame_done (with_ws k w) in
      if leb rx_max idx
      then ws_close_session k
      else if not (idx + 1 == w.plen)
      then with_ws k w
      else if after.ws.active
      then with_ws after (record (after.ws) { state = hdr_bytes; hdr = [] })
      else after

  -- The body of the loop of `ws_feed`.
  unfoldable pub feed_byte : Channel F L → RxState → ℕ → Channel F L
  unfolding hdr_done len_done payload_byte be16 len64_loop
  feed_byte k hdr_bytes b =
      let hdr = k.ws.hdr ++ (b ∷ []) in
      if ltb (length hdr) 2 then with_ws k (record (k.ws) { hdr = hdr }) else hdr_done k hdr
  feed_byte k len16 b =
      let hdr = k.ws.hdr ++ (b ∷ []) in
      let w : Ws = record (k.ws) { hdr = hdr } in
      if length hdr == 2
      then len_done (with_ws k (record w { plen = be16 hdr })) (be16 hdr)
      else with_ws k w
  feed_byte k len64 b =
      let hdr = k.ws.hdr ++ (b ∷ []) in
      let w : Ws = record (k.ws) { hdr = hdr } in
      if length hdr == 8 then len_done (with_ws k w) (len64_loop 0 hdr) else with_ws k w
  feed_byte k mask_bytes b =
      let mask = k.ws.mask ++ (b ∷ []) in
      let w : Ws = record (k.ws) { mask = mask } in
      if length mask == 4
      then with_ws k (record w { state = payload_bytes; hdr = [] })
      else with_ws k w
  feed_byte k payload_bytes b = payload_byte k b

  -- The loop; a session that was closed ends it.
  unfoldable pub feed_loop : Channel F L → List ℕ → Channel F L
  unfolding feed_byte
  feed_loop k [] = k
  feed_loop k (b ∷ bs) =
      let next = feed_byte k k.ws.state b in
      elim next.ws.active [ true ↦ feed_loop next bs | false ↦ next ]

  unfoldable pub ws_feed : Channel F L → List ℕ → Channel F L
  unfolding feed_loop
  ws_feed k bytes = elim k.ws.active [ true ↦ feed_loop k bytes | false ↦ k ]

  -- `pending` came with the request.
  unfoldable pub ws_attach : Channel F L → List ℕ → Channel F L
  unfolding ws_feed
  ws_attach k pending =
      let fresh : Ws = record (k.ws) {
        active = true;
        state = hdr_bytes;
        hdr = [];
        payload = [];
        fw_crc = 0;
      } in
      elim k.ws.active [ true ↦ k | false ↦ ws_feed (with_ws k fresh) pending ]
