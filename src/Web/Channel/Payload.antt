-- ===== src/Web/Channel/Payload.antt =====
-- The mask and the payload of a frame as a client sends it, and what the channel makes of them.
use io_edge_hub_freertos.Common.{ℕ, ◌+◌, ◌/◌, ◌%◌, ◌≤◌, ◌<◌, ◌≡◌, ◌≢◌, refl, ap, ◌∙◌, arith}
use io_edge_hub_freertos.Common.{
  true, not, List, [], ◌∷◌, ◌++◌, append_assoc, length, length-append,
}
use io_edge_hub_freertos.Common.{
  AllBelow, AllBelow-get_or, byte_at, bit_and, bit_xor, u8, ltb, leb, ◌==◌, if◌then◌else◌, if_true,
  if_false,
}
use io_edge_hub_freertos.Common.Bits.{bit_and_low, bit_xor_twice}
use io_edge_hub_freertos.Config.Flash.{Flash}
use io_edge_hub_freertos.Web.Channel.{
  rx_max, hdr_bytes, mask_bytes, payload_bytes, Ws, Tcp, Channel,
}
use io_edge_hub_freertos.Web.Channel.{feed_byte, ws_feed, ws_frame_done, payload_byte}
use io_edge_hub_freertos.Web.Channel.Pieces.{ws_feed_step}

-- The four bytes of a mask.
pub record Mask : Type 0 where
  pub m0 : ℕ
  pub m1 : ℕ
  pub m2 : ℕ
  pub m3 : ℕ

abbrev pub mask_list : Mask → List ℕ
mask_list m = m.m0 ∷ m.m1 ∷ m.m2 ∷ m.m3 ∷ []

-- The bytes of a payload from index `i` on, each with its byte of the mask.
unfoldable pub masked_from : Mask → ℕ → List ℕ → List ℕ
masked_from m i [] = []
masked_from m i (b ∷ bs) = bit_xor b (byte_at (mask_list m) (i % 4)) ∷ masked_from m (i + 1) bs

-- The shortest length field, with the bit of a masked frame.
unfoldable pub length_field : ℕ → List ℕ
length_field n = if ltb n 126 then (128 + n) ∷ [] else 254 ∷ n / 256 ∷ n % 256 ∷ []

-- A final frame of a client.
abbrev pub client_frame : ℕ → Mask → List ℕ → List ℕ
client_frame op m p =
    ((128 + op) ∷ []) ++ (length_field (length p) ++ (mask_list m ++ masked_from m 0 p))

abbrev pub delivered : Ws → ℕ → Mask → List ℕ → Ws
delivered w op m p = record w {
  state = payload_bytes;
  hdr = [];
  op = op;
  fin = true;
  masked = true;
  mask = mask_list m;
  plen = length p;
  payload = p;
}

module _ {F L : Type 0} (fl : Flash F) (tcp : Tcp L)
    (on_text : Channel F L → List ℕ → Channel F L) where
  abbrev pub ready : Channel F L → Channel F L
  ready k =
      if k.ws.active then record k { ws = record (k.ws) { state = hdr_bytes; hdr = [] } } else k

  -- The channel after a whole frame.
  abbrev pub frame_result : Channel F L → ℕ → Mask → List ℕ → Channel F L
  frame_result k op m p =
      ready (ws_frame_done fl tcp on_text (record k { ws = delivered k.ws op m p }))

  -- The channel when the header of a frame has been read.
  abbrev pub headed : Channel F L → ℕ → Mask → ℕ → List ℕ → Channel F L
  headed k op m n p = record k { ws = record (delivered k.ws op m p) { plen = n } }

  abbrev pub plain : Mask → ℕ → ℕ → ℕ
  plain m i b = u8 (bit_xor b (byte_at (mask_list m) (bit_and i 3)))

  pub payload_more :
      (k : Channel F L) (op : ℕ) (m : Mask) (n : ℕ) (done : List ℕ) (b : ℕ)
      → length done + 1 ≢ n
      → length done < rx_max
      → payload_byte fl tcp on_text (headed k op m n done) b
        ≡ headed k op m n (done ++ (plain m (length done) b ∷ []))
  unfolding payload_byte
  payload_more k op m n done b more room =
      if_false (leb rx_max (length done)) _ _ (ground arith)
      ∙ if_true (not (length done + 1 == n)) _ _ (ground arith)

  payload_last :
      (k : Channel F L) (op : ℕ) (m : Mask) (n : ℕ) (done : List ℕ) (b : ℕ)
      → length done + 1 ≡ n
      → length done < rx_max
      → payload_byte fl tcp on_text (headed k op m n done) b
        ≡ ready (
            ws_frame_done fl tcp on_text (headed k op m n (done ++ (plain m (length done) b ∷ []))))
  unfolding payload_byte
  payload_last k op m n done b last room =
      if_false (leb rx_max (length done)) _ _ (ground arith)
      ∙ if_false (not (length done + 1 == n)) _ _ (ground arith)

  pub payload_state :
      (k : Channel F L) (op : ℕ) (m : Mask) (n : ℕ) (done : List ℕ) (b : ℕ)
      → feed_byte fl tcp on_text (headed k op m n done) payload_bytes b
        ≡ payload_byte fl tcp on_text (headed k op m n done) b
  unfolding feed_byte
  payload_state k op m n done b = refl

  plain_masked :
      (m : Mask) (i j b : ℕ)
      → i ≡ j
      → b < 256
      → AllBelow 256 (mask_list m)
      → plain m j (bit_xor b (byte_at (mask_list m) (i % 4))) ≡ b
  plain_masked m i j b e small masks =
      rw
        (
          e,
          bit_and_low 2 j,
          bit_xor_twice 8 b (byte_at (mask_list m) (j % 4)) small
              (AllBelow-get_or 256 (mask_list m) (j % 4) (omega arith) masks),
        )
        (omega arith)

  pub ws_feed-payload :
      (k : Channel F L) (op : ℕ) (m : Mask) (n i : ℕ) (done p rest : List ℕ)
      → k.ws.active ≡ true
      → 0 < length p
      → i ≡ length done
      → n ≡ length done + length p
      → n ≤ rx_max
      → AllBelow 256 p
      → AllBelow 256 (mask_list m)
      → ws_feed fl tcp on_text (headed k op m n done) (masked_from m i p ++ rest)
        ≡ ws_feed fl tcp on_text
            (ready (ws_frame_done fl tcp on_text (headed k op m n (done ++ p))))
            rest
  unfolding masked_from
  ws_feed-payload k op m n i done [] rest on some at count fits small masks = absurd (omega arith)
  ws_feed-payload k op m n i done (b ∷ []) rest on some at count fits small masks =
      ws_feed_step fl tcp on_text (headed k op m n done) _
        (bit_xor b (byte_at (mask_list m) (i % 4))) rest on
        (payload_state k op m n done _
          ∙ (payload_last k op m n done _ (omega arith) (omega arith)
              ∙ ap (λ v. ready (ws_frame_done fl tcp on_text (headed k op m n (done ++ (v ∷ [])))))
                  (plain_masked m i (length done) b at small.0 masks)))
  ws_feed-payload k op m n i done (b ∷ c ∷ cs) rest on some at count fits small masks =
      let longer = length-append done (b ∷ []) in
      ws_feed_step fl tcp on_text (headed k op m n done) (headed k op m n (done ++ (b ∷ [])))
        (bit_xor b (byte_at (mask_list m) (i % 4))) (masked_from m (i + 1) (c ∷ cs) ++ rest) on
        (payload_state k op m n done _
          ∙ (payload_more k op m n done _ (λ e. omega arith) (omega arith)
              ∙ ap (λ v. headed k op m n (done ++ (v ∷ [])))
                  (plain_masked m i (length done) b at small.0 masks)))
      ∙ (ws_feed-payload k op m n (i + 1) (done ++ (b ∷ [])) (c ∷ cs) rest on (omega arith)
            (omega (arith, longer)) (omega (arith, longer)) fits small.1 masks
          ∙ ap
              (λ t.
                ws_feed fl tcp on_text (ready (ws_frame_done fl tcp on_text (headed k op m n t)))
                  rest)
              (append_assoc done (b ∷ []) (c ∷ cs)))

  -- While the mask is read, `got` of its bytes are there.
  abbrev pub masking : Channel F L → ℕ → List ℕ → ℕ → Channel F L
  masking k op got n = record k {
    ws = record (k.ws) {
      state = mask_bytes;
      hdr = [];
      op = op;
      fin = true;
      masked = true;
      mask = got;
      plen = n;
      payload = [];
    };
  }

  mask_byte :
      (k : Channel F L) (op : ℕ) (got : List ℕ) (n b : ℕ)
      → length got < 3
      → feed_byte fl tcp on_text (masking k op got n) mask_bytes b
        ≡ masking k op (got ++ (b ∷ [])) n
  unfolding feed_byte
  mask_byte k op got n b more =
      if_false (length (got ++ (b ∷ [])) == 4) _ _ (ground (arith, length-append got (b ∷ [])))

  mask_end :
      (k : Channel F L) (op : ℕ) (m : Mask) (n : ℕ)
      → feed_byte fl tcp on_text (masking k op (m.m0 ∷ m.m1 ∷ m.m2 ∷ []) n) mask_bytes m.m3
        ≡ headed k op m n []
  unfolding feed_byte
  mask_end k op m n = refl

  pub ws_feed-mask :
      (k : Channel F L) (op : ℕ) (m : Mask) (n : ℕ) (rest : List ℕ)
      → k.ws.active ≡ true
      → ws_feed fl tcp on_text (masking k op [] n) (mask_list m ++ rest)
        ≡ ws_feed fl tcp on_text (headed k op m n []) rest
  ws_feed-mask k op m n rest on =
      ws_feed_step fl tcp on_text (masking k op [] n) _ m.m0 _ on
        (mask_byte k op [] n m.m0 (omega arith))
      ∙ (ws_feed_step fl tcp on_text (masking k op (m.m0 ∷ []) n) _ m.m1 _ on
            (mask_byte k op (m.m0 ∷ []) n m.m1 (omega arith))
          ∙ (ws_feed_step fl tcp on_text (masking k op (m.m0 ∷ m.m1 ∷ []) n) _ m.m2 _ on
                (mask_byte k op (m.m0 ∷ m.m1 ∷ []) n m.m2 (omega arith))
              ∙ ws_feed_step fl tcp on_text (masking k op (m.m0 ∷ m.m1 ∷ m.m2 ∷ []) n) _ m.m3 rest
                  on (mask_end k op m n)))
