-- ===== src/Web/Worker/EndToEnd.antt =====
-- An upgrade over the WebSocket, from the first data frame to the restart.
use io_edge_hub_freertos.Common.{
  ℕ, ◌+◌, ◌≤◌, ◌<◌, ◌≡◌, refl, sym, ap, ap₂, ◌∙◌, arith, Bool, true, false, not, ◌&&◌, List, [],
  ◌++◌, length,
}
use io_edge_hub_freertos.Common.{
  some, AllBelow, ◌==◌, if◌then◌else◌, if_true, if_false, eq→==, u32, Bool-cases, inl, inr,
}
use io_edge_hub_freertos.Config.Flash.{Flash, IsNor, InPage, cells}
use io_edge_hub_freertos.Fw.Upgrade.{
  slot1_size, keyhash_len, upg_received, upg_total, upg_finish, crc16_ccitt,
}
use io_edge_hub_freertos.Fw.Upgrade.Image.{image}
use io_edge_hub_freertos.Fw.Upgrade.Finish.{hash_ok, upg_finish_ex-image}
use io_edge_hub_freertos.Fw.Upgrade.{upg_finish_ex}
use io_edge_hub_freertos.Web.Base64.{b64_encode}
use io_edge_hub_freertos.Web.Base64.RoundTrip.{b64_decode-encode}
use io_edge_hub_freertos.Web.Channel.{Tcp, Channel, ws_feed}
use io_edge_hub_freertos.Web.Channel.Upload.{
  Chunk, AllChunks, stream, content, Uploading, Uploaded, ws_feed-Uploaded,
}
use io_edge_hub_freertos.Web.Worker.{
  op_start, op_end, Reply, ok, crc_mismatch, boot_request, Worker, queued,
}
use io_edge_hub_freertos.Web.Worker.{request_swap, ws_fw_task, cmd_fw_start}

-- A `fw_start` with a positive size and the Base64 text of 32 bytes queues the start of an upgrade
-- of that size with those bytes.
cmd_fw_start-b64_encode :
    (fw_size : ℕ) (kh : List ℕ)
    → 0 < fw_size
    → fw_size < 2147483648
    → AllBelow 256 kh
    → length kh ≡ keyhash_len
    → cmd_fw_start fw_size (some (b64_encode kh)) ≡ queued (op_start fw_size (some kh))
unfolding cmd_fw_start
cmd_fw_start-b64_encode fw_size kh pos small bytes size =
    rw (b64_decode-encode kh keyhash_len bytes (omega arith)) (ground (arith, size))

module _ {F B L : Type 0} (fl : Flash F) (cell : F → ℕ → ℕ) (fw_keyhash : List ℕ)
    (boot_set_pending : B → B × Bool) (tcp : Tcp L)
    (on_text : Channel F L → List ℕ → Channel F L) where
  -- The worker takes the session and the flash as the channel left them.
  abbrev pub handed : Channel F L → B → Worker F B
  handed k b = record { upg = k.upg; flash = k.flash; boot = b; reboot = false }

  module _
      (good_read : (f : F) (a n : ℕ)
        → a + n ≤ slot1_size
        → fl.read f a n ≡ some (cells (cell f) a n))
      (nor : IsNor fl cell)
      (good : (f : F) (a : ℕ) (bs : List ℕ)
        → InPage a (length bs)
        → a + length bs ≤ slot1_size
        → (fl.write f a bs).1 ≡ true) where
    -- The worker after a session that was ended.
    abbrev ended : Worker F B → ℕ → Worker F B
    ended w crc = record w {
      upg = (upg_finish fl fw_keyhash w.upg w.flash crc).0;
      flash = (upg_finish fl fw_keyhash w.upg w.flash crc).1;
    }

    ws_fw_task_whole :
        (w : Worker F B) (crc : ℕ)
        → 0 < upg_received w.upg
        → upg_received w.upg ≡ upg_total w.upg
        → ws_fw_task fl fw_keyhash boot_set_pending w (op_end crc) ≡ (
            if not (upg_finish fl fw_keyhash w.upg w.flash crc).2
            then (ended w crc, crc_mismatch)
            else request_swap fl fw_keyhash boot_set_pending (ended w crc))
    unfolding ws_fw_task
    ws_fw_task_whole w crc pos whole =
        if_false (upg_received w.upg == 0) _ _ (ground (arith, pos))
        ∙ if_false (not (upg_received w.upg == upg_total w.upg)) _ _ (ground (arith, whole))

    -- The answer and the flag, by what the check and MCUboot say.
    abbrev pub verdict : Bool → Bool → Reply
    verdict checked marked = if checked then (if marked then ok else boot_request) else crc_mismatch

    request_swap_lem :
        (w : Worker F B) (checked : Bool) (r : Worker F B × Reply)
        → w.reboot ≡ false
        → r ≡ (
            if not checked
            then (w, crc_mismatch)
            else request_swap fl fw_keyhash boot_set_pending w)
        → (r.1 ≡ verdict checked (boot_set_pending w.boot).1)
          × (r.0.flash ≡ w.flash)
          × (r.0.upg ≡ w.upg)
          × (r.0.reboot ≡ (checked && (boot_set_pending w.boot).1))
    unfolding request_swap
    request_swap_lem w false r up e =
        (ap (λ t. t.1) e, ap (λ t. t.0.flash) e, ap (λ t. t.0.upg) e, ap (λ t. t.0.reboot) e ∙ up)
    request_swap_lem w true r up e = elim (Bool-cases (boot_set_pending w.boot).1) [
      | inl marked ↦ rw (e, marked) (refl, refl, refl, refl)
      | inr not_marked ↦ rw (e, not_marked) (refl, refl, refl, up)
    ]

    -- The data frames, and then the end of the upgrade with the checksum of the channel.
    abbrev pub upload : Channel F L → List Chunk → B → Worker F B × Reply
    upload k cs b =
        ws_fw_task fl fw_keyhash boot_set_pending (handed (ws_feed fl tcp on_text k (stream cs)) b)
          (op_end (ws_feed fl tcp on_text k (stream cs)).ws.fw_crc)

    ws_fw_task-Uploaded :
        (k r : Channel F L) (bytes : List ℕ) (b : B)
        → Uploaded fl cell tcp on_text k bytes r
        → k.upg.written ≡ 0
        → k.upg.page ≡ []
        → length bytes ≡ k.upg.total
        → 0 < length bytes
        → let w = ws_fw_task fl fw_keyhash boot_set_pending (handed r b) (op_end r.ws.fw_crc) in
          (w.1 ≡ verdict (hash_ok fl fw_keyhash w.0.flash) (boot_set_pending b).1)
          × (w.0.reboot ≡ (hash_ok fl fw_keyhash w.0.flash && (boot_set_pending b).1))
          × (cells (cell w.0.flash) 0 (length bytes) ≡ bytes)
          × (w.0.upg.active ≡ false)
    unfolding upg_finish upg_received upg_total
    ws_fw_task-Uploaded k r bytes b u none_written none_held whole pos =
        let count : r.upg.written + length r.upg.page ≡ length bytes =
          omega (arith, u.count, none_written, ap length none_held) in
        let f' = (upg_finish_ex fl fw_keyhash r.upg r.flash r.ws.fw_crc true).1 in
        let (result, over, written) =
          upg_finish_ex-image fl cell good_read nor good fw_keyhash r.upg r.flash r.ws.fw_crc
            u.uploading.on u.uploading.sound u.uploading.receiving in
        let checked : (upg_finish_ex fl fw_keyhash r.upg r.flash r.ws.fw_crc true).2
            ≡ hash_ok fl fw_keyhash f' =
          result
          ∙ (ap
                (λ t.
                  t
                  && ((crc16_ccitt 0 (image fl cell r.upg r.flash) == r.ws.fw_crc)
                      && hash_ok fl fw_keyhash f'))
                (eq→== (r.upg.written + length r.upg.page) r.upg.total
                  (omega (arith, count, whole, u.same_total)))
              ∙ ap (λ t. t && hash_ok fl fw_keyhash f')
                  (eq→== (crc16_ccitt 0 (image fl cell r.upg r.flash)) r.ws.fw_crc
                    (sym u.uploading.checked))) in
        let none : image fl cell k.upg k.flash ≡ [] =
          ap₂ (λ n p. cells (cell k.flash) 0 n ++ p) none_written none_held in
        let got : u32 (r.upg.written + length r.upg.page) ≡ length bytes =
          omega (arith, count, u.uploading.bounded, whole, u.same_total) in
        let total : upg_total r.upg ≡ r.upg.total =
          if_true r.upg.active r.upg.total 0 u.uploading.on in
        let (answer, flash, session, flag) =
          request_swap_lem (ended (handed r b) r.ws.fw_crc)
            (upg_finish fl fw_keyhash r.upg r.flash r.ws.fw_crc).2 _ refl
            (ws_fw_task_whole (handed r b) r.ws.fw_crc (omega (arith, got))
              (omega (arith, got, total, whole, u.same_total))) in
        (
          answer
              ∙ ap (λ t. verdict t (boot_set_pending b).1)
                  (checked ∙ ap (hash_ok fl fw_keyhash) (sym flash)),
          flag
              ∙ ap (λ t. t && (boot_set_pending b).1)
                  (checked ∙ ap (hash_ok fl fw_keyhash) (sym flash)),
          ap (λ t. cells (cell t) 0 (length bytes)) flash
              ∙ (ap (cells (cell f') 0) (sym count)
                  ∙ (written ∙ (u.stored ∙ ap (λ t. t ++ bytes) none))),
          ap (λ t. t.active) session ∙ over,
        )

    -- A whole image in data frames of 1 to rx_max bytes, to a session that was just started with its
    -- size and a channel that has summed up nothing yet, on a NOR flash whose reads, and
    -- program calls within a page, succeed within the slot, and then the end of the upgrade with the checksum of the channel: the size and the
    -- checksum are never the reason of a refusal; the answer is "ok" and the device restarts exactly
    -- when the flash holds the key's fingerprint and MCUboot marks the image; the flash then begins
    -- with the image, and the session is over.
    pub ws_fw_task-upload :
        (k : Channel F L) (cs : List Chunk) (b : B)
        → AllChunks cs
        → Uploading fl cell tcp on_text k
        → k.upg.written ≡ 0
        → k.upg.page ≡ []
        → length (content cs) ≡ k.upg.total
        → 0 < length (content cs)
        → ((upload k cs b).1
            ≡ verdict (hash_ok fl fw_keyhash (upload k cs b).0.flash) (boot_set_pending b).1)
          × ((upload k cs b).0.reboot
              ≡ (hash_ok fl fw_keyhash (upload k cs b).0.flash && (boot_set_pending b).1))
          × (cells (cell (upload k cs b).0.flash) 0 (length (content cs)) ≡ content cs)
          × ((upload k cs b).0.upg.active ≡ false)
    ws_fw_task-upload k cs b chunks up none_written none_held whole pos =
        ws_fw_task-Uploaded k (ws_feed fl tcp on_text k (stream cs)) (content cs) b
          (ws_feed-Uploaded fl cell tcp on_text nor good k cs chunks up
            (omega (arith, none_written, ap length none_held, whole)))
          none_written none_held whole pos
