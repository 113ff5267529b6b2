-- ===== src/Web/Channel/Frames.antt =====
-- A frame as a client sends it, and what the channel makes of it.
use io_edge_hub_freertos.Common.{ℕ, ◌+◌, ◌/◌, ◌%◌, ◌^◌, ◌≤◌, ◌<◌, ◌≡◌, refl, ap, ap₂, ◌∙◌, arith}
use io_edge_hub_freertos.Common.{Bool, true, not, ◌&&◌, List, [], ◌∷◌, ◌++◌, append_assoc, length}
use io_edge_hub_freertos.Common.{AllBelow, bit_and, ltb, ◌==◌, if_false, Bool-cases, inl, inr}
use io_edge_hub_freertos.Common.Bits.{bit_or_fields, holds_below, holds_below-lt}
use io_edge_hub_freertos.Config.Flash.{Flash}
use io_edge_hub_freertos.Web.Channel.{rx_max, hdr_bytes, len16, Tcp, Channel}
use io_edge_hub_freertos.Web.Channel.{feed_byte, ws_feed, hdr_done, len_done, be16}
use io_edge_hub_freertos.Web.Channel.Pieces.{ws_feed_step}
use io_edge_hub_freertos.Web.Channel.Payload.{
  Mask, mask_list, masked_from, length_field, client_frame,
}
use io_edge_hub_freertos.Web.Channel.Payload.{frame_result, masking, ws_feed-mask, ws_feed-payload}

-- The bits of the two bytes of a header.
first_byte_ok : ℕ → Bool
first_byte_ok op = not (bit_and (128 + op) 0x80 == 0) && (bit_and (128 + op) 0x0F == op)

first_byte_table : holds_below 16 first_byte_ok ≡ true
unfolding holds_below first_byte_ok
first_byte_table = refl

second_byte_ok : ℕ → Bool
second_byte_ok n = not (bit_and (128 + n) 0x80 == 0) && (bit_and (128 + n) 0x7F == n)

second_byte_table : holds_below 128 second_byte_ok ≡ true
unfolding holds_below second_byte_ok
second_byte_table = refl

first_byte :
    (op : ℕ)
    → op < 16
    → (not (bit_and (128 + op) 0x80 == 0) ≡ true) × (bit_and (128 + op) 0x0F ≡ op)
unfolding first_byte_ok
first_byte op small =
    let both = holds_below-lt 16 first_byte_ok op small first_byte_table in
    (ground (arith, both), ground (arith, both))

second_byte :
    (n : ℕ) → n < 128 → (not (bit_and (128 + n) 0x80 == 0) ≡ true) × (bit_and (128 + n) 0x7F ≡ n)
unfolding second_byte_ok
second_byte n small =
    let both = holds_below-lt 128 second_byte_ok n small second_byte_table in
    (ground (arith, both), ground (arith, both))

be16_div_mod : (n : ℕ) → n < 2 ^ 16 → be16 (n / 256 ∷ n % 256 ∷ []) ≡ n
unfolding be16
be16_div_mod n small = omega (arith, bit_or_fields 8 (n / 256) (n % 256) (omega arith))

module _ {F L : Type 0} (fl : Flash F) (tcp : Tcp L)
    (on_text : Channel F L → List ℕ → Channel F L) where
  -- A channel between two frames.
  abbrev pub Idle : Channel F L → Type 0
  Idle k = (k.ws.active ≡ true) × (k.ws.state ≡ hdr_bytes) × (k.ws.hdr ≡ [])

  abbrev pub heading : Channel F L → List ℕ → Channel F L
  heading k hdr = record k { ws = record (k.ws) { state = hdr_bytes; hdr = hdr } }

  -- The extended length is read.
  abbrev lengthening : Channel F L → ℕ → List ℕ → Channel F L
  lengthening k op hdr = record k {
    ws = record (k.ws) {
      state = len16;
      hdr = hdr;
      op = op;
      fin = true;
      masked = true;
      plen = 126;
      payload = [];
    };
  }

  header_bytes :
      (k : Channel F L) (b0 b1 : ℕ)
      → (feed_byte fl tcp on_text (heading k []) hdr_bytes b0 ≡ heading k (b0 ∷ []))
        × (feed_byte fl tcp on_text (heading k (b0 ∷ [])) hdr_bytes b1
            ≡ hdr_done fl tcp on_text (heading k (b0 ∷ [])) (b0 ∷ b1 ∷ []))
  unfolding feed_byte
  header_bytes k b0 b1 = (refl, refl)

  hdr_done_short :
      (k : Channel F L) (op n : ℕ)
      → op < 16
      → n < 126
      → hdr_done fl tcp on_text (heading k ((128 + op) ∷ [])) ((128 + op) ∷ (128 + n) ∷ [])
        ≡ masking fl tcp on_text k op [] n
  unfolding hdr_done
  hdr_done_short k op n known short =
      let first = first_byte op known in
      let second = second_byte n (omega arith) in
      if_false (bit_and (128 + n) 0x7F == 126) _ _ (ground (arith, second.1))
      ∙ (if_false (bit_and (128 + n) 0x7F == 127) _ _ (ground (arith, second.1))
          ∙ (if_false (ltb rx_max (bit_and (128 + n) 0x7F)) _ _ (ground (arith, second.1))
              ∙ (rw (first.0, first.1, second.0, second.1) refl)))

  hdr_done_long :
      (k : Channel F L) (op : ℕ)
      → op < 16
      → hdr_done fl tcp on_text (heading k ((128 + op) ∷ [])) ((128 + op) ∷ 254 ∷ [])
        ≡ lengthening k op []
  unfolding hdr_done
  hdr_done_long k op known = let first = first_byte op known in rw (first.0, first.1) refl

  length_bytes :
      (k : Channel F L) (op n : ℕ)
      → n ≤ rx_max
      → (feed_byte fl tcp on_text (lengthening k op []) len16 (n / 256)
          ≡ lengthening k op (n / 256 ∷ []))
        × (feed_byte fl tcp on_text (lengthening k op (n / 256 ∷ [])) len16 (n % 256)
            ≡ masking fl tcp on_text k op [] n)
  unfolding feed_byte len_done
  length_bytes k op n small =
      let value = be16_div_mod n (omega arith) in
      (refl, rw value (if_false (ltb rx_max n) _ _ (ground arith)))

  -- The header up to the length.
  pub ws_feed-length :
      (k : Channel F L) (op n : ℕ) (rest : List ℕ)
      → k.ws.active ≡ true
      → op < 16
      → n ≤ rx_max
      → ws_feed fl tcp on_text (heading k []) ((128 + op) ∷ (length_field n ++ rest))
        ≡ ws_feed fl tcp on_text (masking fl tcp on_text k op [] n) rest
  unfolding length_field
  ws_feed-length k op n rest on known small = elim (Bool-cases (ltb n 126)) [
    | inl short ↦ rw short (
        ws_feed_step fl tcp on_text (heading k []) _ (128 + op) _ on
          (header_bytes k (128 + op) (128 + n)).0
        ∙ ws_feed_step fl tcp on_text (heading k ((128 + op) ∷ [])) _ (128 + n) rest on
            ((header_bytes k (128 + op) (128 + n)).1 ∙ hdr_done_short k op n known (ground arith)))
    | inr long ↦ rw long (
        ws_feed_step fl tcp on_text (heading k []) _ (128 + op) _ on
          (header_bytes k (128 + op) 254).0
        ∙ (ws_feed_step fl tcp on_text (heading k ((128 + op) ∷ [])) _ 254 _ on
              ((header_bytes k (128 + op) 254).1 ∙ hdr_done_long k op known)
            ∙ (ws_feed_step fl tcp on_text (lengthening k op []) _ (n / 256) _ on
                  (length_bytes k op n small).0
                ∙ ws_feed_step fl tcp on_text (lengthening k op (n / 256 ∷ [])) _ (n % 256) rest on
                    (length_bytes k op n small).1)))
  ]

  pub Idle-heading : (k : Channel F L) → Idle k → k ≡ heading k []
  Idle-heading k i = ap₂ (λ s h. record k { ws = record (k.ws) { state = s; hdr = h } }) i.1 i.2

  -- A final frame with a mask and a payload of 1 to rx_max bytes, which reaches a channel between two
  -- frames, is taken as it was meant, whatever follows it: the frame is handled with its opcode and
  -- its unmasked payload, and the bytes that follow are read as the next frame.
  pub ws_feed-client_frame :
      (k : Channel F L) (op : ℕ) (m : Mask) (p rest : List ℕ)
      → Idle k
      → op < 16
      → 0 < length p
      → length p ≤ rx_max
      → AllBelow 256 p
      → AllBelow 256 (mask_list m)
      → ws_feed fl tcp on_text k (client_frame op m p ++ rest)
        ≡ ws_feed fl tcp on_text (frame_result fl tcp on_text k op m p) rest
  ws_feed-client_frame k op m p rest i known some fits small masks =
      ap₂ (ws_feed fl tcp on_text) (Idle-heading k i) (pieces)
      ∙ (ws_feed-length k op (length p) _ i.0 known fits
          ∙ (ws_feed-mask fl tcp on_text k op m (length p) (masked_from m 0 p ++ rest) i.0
              ∙ ws_feed-payload fl tcp on_text k op m (length p) 0 [] p rest i.0 some refl
                  (omega arith) fits small masks))
    where
      pieces :
          client_frame op m p ++ rest
          ≡ (128 + op) ∷ (length_field (length p) ++ (mask_list m ++ (masked_from m 0 p ++ rest)))
      pieces = ap (λ t. (128 + op) ∷ t) (append_assoc (length_field (length p)) _ rest)
