-- ===== src/Web/Channel/Bounds.antt =====
-- The arrays of the receiver: no write goes beyond them, whatever bytes come.
use io_edge_hub_freertos.Common.{ℕ, ◌+◌, ◌≤◌, ◌<◌, ◌≡◌, refl, sym, ap, arith, ◌⊎◌, inl, inr}
use io_edge_hub_freertos.Common.{
  Bool, true, false, not, List, [], ◌∷◌, ◌++◌, length, length-append, byte_at, bit_and, bit_xor, u8,
  ltb, leb, ◌==◌, if◌then◌else◌, Bool-cases, if_true, if_false,
}
use mathlib.Core.Path.{subst}
use io_edge_hub_freertos.Config.Flash.{Flash}
use io_edge_hub_freertos.Web.Channel.{
  rx_max, RxState, hdr_bytes, len16, len64, mask_bytes, payload_bytes, Ws, Tcp, Channel,
}
use io_edge_hub_freertos.Web.Channel.{
  be16, len64_loop, length_known, ws_send, ws_close_session, terminated, ws_frame_done, hdr_done,
  len_done, payload_byte, feed_byte, ws_feed,
}
use io_edge_hub_freertos.Web.Channel.Pieces.{ws_feed_off, ws_feed_nil, ws_feed_step}

-- Where the next byte goes, there is room; a mask that is used is whole.
abbrev pub Room : RxState → Ws → Type 0
Room hdr_bytes w = length w.hdr < 2
Room len16 w = length w.hdr < 2
Room len64 w = length w.hdr < 8
Room mask_bytes w = (length w.mask < 4) × (w.masked ≡ true)
Room payload_bytes w = (w.masked ≡ false) ⊎ (length w.mask ≡ 4)

-- A session that is open is within its arrays.
abbrev pub InBounds : Ws → Type 0
InBounds w = (w.active ≡ true) → Room w.state w × (length w.payload ≤ rx_max)

within_by_state :
    (w : Ws) (st : RxState) → w.state ≡ st → Room st w → length w.payload ≤ rx_max → InBounds w
within_by_state w st e r h on = (subst (λ s. Room s w) (sym e) r, h)

within_when_over : (w : Ws) → w.active ≡ false → InBounds w
within_when_over w off on = absurd (cc)

length_known-InBounds : (w : Ws) → length w.payload ≤ rx_max → InBounds (length_known w)
unfolding length_known
length_known-InBounds w h = elim (Bool-cases w.masked) [
  | inl e ↦
      within_by_state (length_known w) mask_bytes (if_true w.masked _ _ e) (ground (arith, e), e) h
  | inr e ↦ within_by_state (length_known w) payload_bytes (if_false w.masked _ _ e) (inl e) h
]

module _ {F L : Type 0} (fl : Flash F) (tcp : Tcp L)
    (on_text : Channel F L → List ℕ → Channel F L) where
  ws-ws_send : (k : Channel F L) (op : ℕ) (p : List ℕ) → (ws_send fl tcp on_text k op p).ws ≡ k.ws
  unfolding ws_send
  ws-ws_send k op p = ground arith

  closed : (k : Channel F L) → (ws_close_session fl tcp on_text k).ws.active ≡ false
  unfolding ws_close_session
  closed k = ground arith

  module _ (keeps : (k : Channel F L) (p : List ℕ) → (on_text k p).ws ≡ k.ws) where
    ws-on_text :
        (k : Channel F L)
        → (on_text (terminated fl tcp on_text k) k.ws.payload).ws.payload ≡ k.ws.payload ++ (0 ∷ [])
    unfolding terminated
    ws-on_text k = ap (λ t. t.payload) (keeps (terminated fl tcp on_text k) k.ws.payload)

    payload-ws_frame_done :
        (k : Channel F L)
        → length k.ws.payload ≤ rx_max
        → length (ws_frame_done fl tcp on_text k).ws.payload ≤ rx_max
    unfolding ws_frame_done
    payload-ws_frame_done k h =
        ground (arith, ap length (ws-on_text k), length-append k.ws.payload (0 ∷ []))

    within_either :
        (c : Bool) (x y : Channel F L)
        → (c ≡ true → InBounds x.ws)
        → (c ≡ false → InBounds y.ws)
        → InBounds (if c then x else y).ws
    within_either true x y h g = h refl
    within_either false x y h g = g refl

    closed-InBounds : (k : Channel F L) → InBounds (ws_close_session fl tcp on_text k).ws
    closed-InBounds k = within_when_over (ws_close_session fl tcp on_text k).ws (closed k)

    hdr_done-InBounds :
        (k : Channel F L) (hdr : List ℕ) → InBounds (hdr_done fl tcp on_text k hdr).ws
    unfolding hdr_done
    hdr_done-InBounds k hdr =
        let w : Ws = record (k.ws) {
          fin = not (bit_and (byte_at hdr 0) 0x80 == 0);
          op = bit_and (byte_at hdr 0) 0x0F;
          masked = not (bit_and (byte_at hdr 1) 0x80 == 0);
          plen = bit_and (byte_at hdr 1) 0x7F;
          payload = [];
          hdr = [];
        } in
        let at : Ws → Channel F L = λ t. record k { ws = t } in
        within_either (w.plen == 126) (at (record w { state = len16 })) _
          (λ e on. (omega arith, omega arith))
          (λ e.
            within_either (w.plen == 127) (at (record w { state = len64 })) _
              (λ f on. (omega arith, omega arith))
              (λ f.
                within_either (ltb rx_max w.plen) _ _ (λ g. closed-InBounds (at w))
                  (λ g. length_known-InBounds w (omega arith))))

    len_done-InBounds :
        (k : Channel F L) (v : ℕ)
        → length k.ws.payload ≤ rx_max
        → InBounds (len_done fl tcp on_text k v).ws
    unfolding len_done
    len_done-InBounds k v h =
        within_either (ltb rx_max v) _ _ (λ e. closed-InBounds k)
          (λ e. length_known-InBounds (record (k.ws) { plen = v }) h)

    payload_byte-InBounds :
        (k : Channel F L) (b : ℕ)
        → k.ws.state ≡ payload_bytes
        → Room payload_bytes k.ws
        → length k.ws.payload ≤ rx_max
        → InBounds (payload_byte fl tcp on_text k b).ws
    unfolding payload_byte
    payload_byte-InBounds k b e r h =
        let idx = length k.ws.payload in
        let plain = if k.ws.masked then u8 (bit_xor b (byte_at k.ws.mask (bit_and idx 3))) else b in
        let w : Ws = record (k.ws) { payload = k.ws.payload ++ (plain ∷ []) } in
        let at : Channel F L = record k { ws = w } in
        let after = ws_frame_done fl tcp on_text at in
        let again : Channel F L = record after {
          ws = record (after.ws) { state = hdr_bytes; hdr = [] };
        } in
        let longer = length-append k.ws.payload (plain ∷ []) in
        within_either (leb rx_max idx) (ws_close_session fl tcp on_text k)
          (if not (idx + 1 == w.plen) then at else (if after.ws.active then again else after))
          (λ full. closed-InBounds k)
          (λ room.
            within_either (not (idx + 1 == w.plen)) at (if after.ws.active then again else after)
              (λ more. within_by_state w payload_bytes e r (ground (arith, longer)))
              (λ last.
                within_either after.ws.active again after
                  (λ going on. (omega arith, payload-ws_frame_done at (ground (arith, longer))))
                  (λ ended. within_when_over after.ws ended)))

    feed_byte-InBounds :
        (k : Channel F L) (st : RxState) (b : ℕ)
        → k.ws.state ≡ st
        → Room st k.ws
        → length k.ws.payload ≤ rx_max
        → InBounds (feed_byte fl tcp on_text k st b).ws
    unfolding feed_byte
    feed_byte-InBounds k hdr_bytes b e r h =
        within_either (ltb (length (k.ws.hdr ++ (b ∷ []))) 2) _ _
          (λ few.
            within_by_state (record (k.ws) { hdr = k.ws.hdr ++ (b ∷ []) }) hdr_bytes e
              (ground (arith, length-append k.ws.hdr (b ∷ []))) h)
          (λ both. hdr_done-InBounds k (k.ws.hdr ++ (b ∷ [])))
    feed_byte-InBounds k len16 b e r h =
        within_either (length (k.ws.hdr ++ (b ∷ [])) == 2) _ _
          (λ both.
            len_done-InBounds
              (record k {
                ws = record (k.ws) {
                  hdr = k.ws.hdr ++ (b ∷ []);
                  plen = be16 (k.ws.hdr ++ (b ∷ []));
                };
              })
              (be16 (k.ws.hdr ++ (b ∷ []))) h)
          (λ few.
            within_by_state (record (k.ws) { hdr = k.ws.hdr ++ (b ∷ []) }) len16 e
              (ground (arith, length-append k.ws.hdr (b ∷ []))) h)
    feed_byte-InBounds k len64 b e r h =
        within_either (length (k.ws.hdr ++ (b ∷ [])) == 8) _ _
          (λ both.
            len_done-InBounds (record k { ws = record (k.ws) { hdr = k.ws.hdr ++ (b ∷ []) } })
              (len64_loop 0 (k.ws.hdr ++ (b ∷ []))) h)
          (λ few.
            within_by_state (record (k.ws) { hdr = k.ws.hdr ++ (b ∷ []) }) len64 e
              (ground (arith, length-append k.ws.hdr (b ∷ []))) h)
    feed_byte-InBounds k mask_bytes b e r h =
        within_either (length (k.ws.mask ++ (b ∷ [])) == 4) _ _
          (λ whole.
            within_by_state
              (record (k.ws) { mask = k.ws.mask ++ (b ∷ []); state = payload_bytes; hdr = [] })
              payload_bytes refl (inr (ground arith)) h)
          (λ few.
            within_by_state (record (k.ws) { mask = k.ws.mask ++ (b ∷ []) }) mask_bytes e
              (ground (arith, length-append k.ws.mask (b ∷ [])), r.1) h)
    feed_byte-InBounds k payload_bytes b e r h = payload_byte-InBounds k b e r h

    -- A channel whose open session is within its arrays stays so, whatever bytes come, as long as the
    -- commands of text frames leave the receiver alone: there is room for the next byte of the
    -- header, of an extended length and of the mask, and the payload never exceeds its buffer.
    pub ws_feed-InBounds :
        (k : Channel F L) (bytes : List ℕ)
        → InBounds k.ws
        → InBounds (ws_feed fl tcp on_text k bytes).ws
    ws_feed-InBounds k [] h = rw (ws_feed_nil fl tcp on_text k) h
    ws_feed-InBounds k (b ∷ bs) h = elim (Bool-cases k.ws.active) [
      | inl on ↦
          rw (ws_feed_step fl tcp on_text k (feed_byte fl tcp on_text k k.ws.state b) b bs on refl)
            (ws_feed-InBounds (feed_byte fl tcp on_text k k.ws.state b) bs
              (feed_byte-InBounds k k.ws.state b refl (h on).0 (h on).1))
      | inr off ↦ rw (ws_feed_off fl tcp on_text k (b ∷ bs) off) h
    ]
