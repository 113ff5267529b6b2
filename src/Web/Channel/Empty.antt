-- ===== src/Web/Channel/Empty.antt =====
-- A frame without a payload: the end of a frame is only looked for after a byte of the payload.
use io_edge_hub_freertos.Common.{ℕ, ◌+◌, ◌≤◌, ◌<◌, ◌≡◌, ap, ◌∙◌, arith, true}
use io_edge_hub_freertos.Common.{List, [], ◌∷◌, ◌++◌, append_assoc, length, length-append}
use io_edge_hub_freertos.Config.Flash.{Flash}
use io_edge_hub_freertos.Web.Channel.{rx_max, Tcp, Channel, ws_feed}
use io_edge_hub_freertos.Web.Channel.Pieces.{ws_feed_nil, ws_feed_step}
use io_edge_hub_freertos.Web.Channel.Payload.{
  Mask, mask_list, length_field, masked_from, client_frame, delivered,
}
use io_edge_hub_freertos.Web.Channel.Payload.{
  plain, headed, payload_more, payload_state, ws_feed-mask,
}
use io_edge_hub_freertos.Web.Channel.Frames.{Idle, heading, ws_feed-length, Idle-heading}

module _ {F L : Type 0} (fl : Flash F) (tcp : Tcp L)
    (on_text : Channel F L → List ℕ → Channel F L) where
  -- The bytes that follow, unmasked as if they were payload.
  abbrev pub swallowed : Mask → List ℕ → List ℕ → List ℕ
  swallowed m done [] = done
  swallowed m done (x ∷ xs) = swallowed m (done ++ (plain fl tcp on_text m (length done) x ∷ [])) xs

  ws_feed-swallowed :
      (k : Channel F L) (op : ℕ) (m : Mask) (done xs : List ℕ)
      → k.ws.active ≡ true
      → length done + length xs ≤ rx_max
      → ws_feed fl tcp on_text (headed fl tcp on_text k op m 0 done) xs
        ≡ headed fl tcp on_text k op m 0 (swallowed m done xs)
  ws_feed-swallowed k op m done [] on room =
      ws_feed_nil fl tcp on_text (headed fl tcp on_text k op m 0 done)
  ws_feed-swallowed k op m done (x ∷ xs) on room =
      let next = done ++ (plain fl tcp on_text m (length done) x ∷ []) in
      ws_feed_step fl tcp on_text (headed fl tcp on_text k op m 0 done)
        (headed fl tcp on_text k op m 0 next) x xs on
        (payload_state fl tcp on_text k op m 0 done x
          ∙ payload_more fl tcp on_text k op m 0 done x (λ e. omega arith) (omega arith))
      ∙ ws_feed-swallowed k op m next xs on
          (omega (arith, length-append done (plain fl tcp on_text m (length done) x ∷ [])))

  -- After a final masked frame without a payload, which reaches a channel between two frames, the next
  -- 10256 bytes, whatever frames they make, are taken as its payload: nothing is sent, the upgrade
  -- session and the flash stay as they are, and the channel still waits for payload.
  pub ws_feed_empty_frame :
      (k : Channel F L) (op : ℕ) (m : Mask) (xs : List ℕ)
      → Idle fl tcp on_text k
      → op < 16
      → length xs ≤ rx_max
      → ws_feed fl tcp on_text k (client_frame op m [] ++ xs)
        ≡ record k { ws = record (delivered k.ws op m (swallowed m [] xs)) { plen = 0 } }
  unfolding masked_from
  ws_feed_empty_frame k op m xs i known room =
      ap (λ t. ws_feed fl tcp on_text t (client_frame op m [] ++ xs))
        (Idle-heading fl tcp on_text k i)
      ∙ (ap (λ t. ws_feed fl tcp on_text (heading fl tcp on_text k []) ((128 + op) ∷ t))
            (append_assoc (length_field 0) (mask_list m ++ []) xs)
          ∙ (ws_feed-length fl tcp on_text k op 0 (mask_list m ++ xs) i.0 known (omega arith)
              ∙ (ws_feed-mask fl tcp on_text k op m 0 xs i.0
                  ∙ ws_feed-swallowed k op m [] xs i.0 (omega arith))))
