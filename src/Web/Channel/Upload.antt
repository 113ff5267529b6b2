-- ===== src/Web/Channel/Upload.antt =====
-- The data frames of an upgrade: what they leave in the flash, and the checksum that goes with it.
use io_edge_hub_freertos.Common.{ℕ, ◌+◌, ◌≤◌, ◌<◌, ◌≡◌, refl, sym, ap, ◌∙◌, arith}
use io_edge_hub_freertos.Common.{
  true, false, List, [], ◌∷◌, ◌++◌, append-nil, append_assoc, length, length-append,
}
use io_edge_hub_freertos.Common.{AllBelow, if_true}
use io_edge_hub_freertos.Config.Flash.{Flash, IsNor, InPage}
use io_edge_hub_freertos.Fw.Upgrade.{upg_write, slot1_size, ccitt_byte, crc16_ccitt}
use io_edge_hub_freertos.Fw.Upgrade.Image.{image, Receiving, upg_write-Took}
use io_edge_hub_freertos.Fw.Upgrade.Finish.{crc16_ccitt-append}
use io_edge_hub_freertos.Web.Channel.{
  rx_max, hdr_bytes, Tcp, Channel, ws_crc16, ws_feed, ws_frame_done,
}
use io_edge_hub_freertos.Web.Channel.Pieces.{ws_feed_nil}
use io_edge_hub_freertos.Web.Channel.Payload.{
  Mask, mask_list, client_frame, delivered, ready, frame_result,
}
use io_edge_hub_freertos.Web.Channel.Frames.{Idle, ws_feed-client_frame}

-- The two checksums are the same function.
ws_crc16-crc16_ccitt : (seed : ℕ) (p : List ℕ) → ws_crc16 seed p ≡ crc16_ccitt seed p
unfolding ws_crc16 crc16_ccitt ccitt_byte
ws_crc16-crc16_ccitt seed [] = refl
ws_crc16-crc16_ccitt seed (b ∷ bs) = ws_crc16-crc16_ccitt (ccitt_byte seed b) bs

-- A data frame: its mask and its payload.
pub record Chunk : Type 0 where
  pub mask : Mask
  pub bytes : List ℕ

abbrev pub IsChunk : Chunk → Type 0
IsChunk c =
    (0 < length c.bytes)
    × (length c.bytes ≤ rx_max)
    × AllBelow 256 c.bytes
    × AllBelow 256 (mask_list c.mask)

abbrev pub AllChunks : List Chunk → Type 0
AllChunks [] = Unit {0}
AllChunks (c ∷ cs) = IsChunk c × AllChunks cs

-- What the client sends, and what it means.
abbrev pub stream : List Chunk → List ℕ
stream [] = []
stream (c ∷ cs) = client_frame 2 c.mask c.bytes ++ stream cs

abbrev pub content : List Chunk → List ℕ
content [] = []
content (c ∷ cs) = c.bytes ++ content cs

module _ {F L : Type 0} (fl : Flash F) (cell : F → ℕ → ℕ) (tcp : Tcp L)
    (on_text : Channel F L → List ℕ → Channel F L) where
  -- The channel after a data frame that was taken.
  abbrev taken_frame : Channel F L → Mask → List ℕ → Channel F L
  taken_frame k m p = record k {
    ws = record (delivered k.ws 2 m p) { fw_crc = ws_crc16 k.ws.fw_crc p };
    upg = (upg_write fl k.upg k.flash p).0;
    flash = (upg_write fl k.upg k.flash p).1;
  }

  ws_frame_done_binary :
      (k : Channel F L) (m : Mask) (p : List ℕ)
      → k.upg.active ≡ true
      → (upg_write fl k.upg k.flash p).2 ≡ true
      → ws_frame_done fl tcp on_text (record k { ws = delivered k.ws 2 m p }) ≡ taken_frame k m p
  unfolding ws_frame_done
  ws_frame_done_binary k m p receiving taken =
      if_true k.upg.active _ _ receiving
      ∙ ap (λ c. record (taken_frame k m p) { ws = record (delivered k.ws 2 m p) { fw_crc = c } })
          (if_true (upg_write fl k.upg k.flash p).2 (ws_crc16 k.ws.fw_crc p) k.ws.fw_crc taken)

  frame_result_binary :
      (k : Channel F L) (m : Mask) (p : List ℕ)
      → k.ws.active ≡ true
      → k.upg.active ≡ true
      → (upg_write fl k.upg k.flash p).2 ≡ true
      → frame_result fl tcp on_text k 2 m p ≡ record (taken_frame k m p) {
        ws = record ((taken_frame k m p).ws) { state = hdr_bytes; hdr = [] };
      }
  frame_result_binary k m p on receiving taken =
      ap (ready fl tcp on_text) (ws_frame_done_binary k m p receiving taken)
      ∙ if_true k.ws.active _ _ on

  -- The channel takes data: the upgrade session receives, and its checksum is that of the image.
  pub record Uploading (k : Channel F L) : Type 0 where
    pub idle : Idle fl tcp on_text k
    pub on : k.upg.active ≡ true
    pub sound : k.upg.failed ≡ false
    pub receiving : Receiving fl cell k.upg k.flash
    pub checked : k.ws.fw_crc ≡ crc16_ccitt 0 (image fl cell k.upg k.flash)
    pub bounded : k.upg.total ≤ slot1_size

  -- What a run of data frames leaves.
  pub record Uploaded (k : Channel F L) (data_in : List ℕ) (r : Channel F L) : Type 0 where
    pub uploading : Uploading r
    pub stored : image fl cell r.upg r.flash ≡ image fl cell k.upg k.flash ++ data_in
    pub same_line : r.line ≡ k.line
    pub same_total : r.upg.total ≡ k.upg.total
    pub count :
        r.upg.written + length r.upg.page ≡ k.upg.written + length k.upg.page + length data_in

  module _ (nor : IsNor fl cell)
      (good : (f : F) (a : ℕ) (bs : List ℕ)
        → InPage a (length bs)
        → a + length bs ≤ slot1_size
        → (fl.write f a bs).1 ≡ true) where
    frame_result-Uploaded :
        (k : Channel F L) (c : Chunk)
        → Uploading k
        → k.upg.written + length k.upg.page + length c.bytes ≤ k.upg.total
        → Uploaded k c.bytes (frame_result fl tcp on_text k 2 c.mask c.bytes)
    frame_result-Uploaded k c u room =
        let took =
          upg_write-Took fl cell nor good k.upg k.flash c.bytes u.on u.sound u.receiving room
            u.bounded in
        rw (frame_result_binary k c.mask c.bytes u.idle.0 u.on took.done) (record {
          uploading = record {
            idle = (u.idle.0, refl, refl);
            on = took.same_active ∙ u.on;
            sound = took.same_failed ∙ u.sound;
            receiving = took.receiving;
            checked =
                ws_crc16-crc16_ccitt k.ws.fw_crc c.bytes
                ∙ (ap (λ t. crc16_ccitt t c.bytes) u.checked
                    ∙ (sym (crc16_ccitt-append 0 (image fl cell k.upg k.flash) c.bytes)
                        ∙ ap (crc16_ccitt 0) (sym took.appended)));
            bounded = omega (arith, took.same_total, u.bounded);
          };
          stored = took.appended;
          same_line = refl;
          same_total = took.same_total;
          count = took.count;
        })

    -- Data frames of 1 to rx_max bytes, sent one after the other to a channel between two frames
    -- whose upgrade session receives, on a NOR flash whose program calls within a page of the
    -- slot succeed, and which stay
    -- within the announced total: they add the bytes of their payloads, in order, to what the session
    -- has received, the checksum of the channel is that of all that was received, and the channel
    -- again waits for a frame. Nothing is sent.
    pub ws_feed-Uploaded :
        (k : Channel F L) (cs : List Chunk)
        → AllChunks cs
        → Uploading k
        → k.upg.written + length k.upg.page + length (content cs) ≤ k.upg.total
        → Uploaded k (content cs) (ws_feed fl tcp on_text k (stream cs))
    ws_feed-Uploaded k [] chunks u room = rw (ws_feed_nil fl tcp on_text k) (record {
      uploading = u;
      stored = sym (append-nil (image fl cell k.upg k.flash));
      same_line = refl;
      same_total = refl;
      count = omega arith;
    })
    ws_feed-Uploaded k (c ∷ cs) chunks u room =
        let size = length-append c.bytes (content cs) in
        let first = frame_result-Uploaded k c u (omega (arith, size)) in
        let next = frame_result fl tcp on_text k 2 c.mask c.bytes in
        let later =
          ws_feed-Uploaded next cs chunks.1 first.uploading
            (omega (arith, size, first.count, first.same_total)) in
        let ok = chunks.0 in
        rw
          (ws_feed-client_frame fl tcp on_text k 2 c.mask c.bytes (stream cs) u.idle (omega arith)
            ok.0 ok.1 ok.2 ok.3)
          (record {
            uploading = later.uploading;
            stored =
                later.stored
                ∙ (ap (λ t. t ++ content cs) first.stored
                    ∙ append_assoc (image fl cell k.upg k.flash) c.bytes (content cs));
            same_line = later.same_line ∙ first.same_line;
            same_total = later.same_total ∙ first.same_total;
            count = omega (arith, later.count, first.count, size);
          })
