-- ===== src/Web/Channel/Tests.antt =====
-- A channel with a connection that records what is written, and the driver over a part in memory.
use io_edge_hub_freertos.Common.{ℕ, ◌≡◌, refl, arith, true, false, List, [], ◌∷◌, ◌++◌}
use io_edge_hub_freertos.Storage.W25qxx.Tests.{
  Chip, chip_flash, chip_flash-IsNor, chip_writes, blank_chip,
}
use io_edge_hub_freertos.Fw.Upgrade.{crc16_ccitt}
use io_edge_hub_freertos.Fw.Upgrade.Image.{image}
use io_edge_hub_freertos.Fw.Upgrade.Tests.{open_session, open-Receiving, four}
use io_edge_hub_freertos.Web.Channel.{hdr_bytes, Ws, Tcp, Channel, ws_feed}
use io_edge_hub_freertos.Web.Channel.Bounds.{InBounds, ws_feed-InBounds}
use io_edge_hub_freertos.Web.Channel.Empty.{swallowed, ws_feed_empty_frame}
use io_edge_hub_freertos.Web.Channel.Frames.{ws_feed-client_frame}
use io_edge_hub_freertos.Web.Channel.Payload.{
  Mask, length_field, masked_from, client_frame, delivered, frame_result,
}
use io_edge_hub_freertos.Web.Channel.Upload.{Chunk, AllChunks, stream, Uploaded, ws_feed-Uploaded}

abbrev pub Sent : Type 0
Sent = List (List ℕ)

abbrev pub recording : Tcp Sent
recording = record {
  sndbuf = λ l. 1000;
  write = λ l bs. (l ++ (bs ∷ []), true);
  output = λ l. l;
  on_close = λ l. l;
}

abbrev pub no_command : Channel Chip Sent → List ℕ → Channel Chip Sent
no_command k p = k

abbrev pub idle_ws : ℕ → Ws
idle_ws crc = record {
  active = true;
  state = hdr_bytes;
  hdr = [];
  op = 0;
  fin = false;
  masked = false;
  mask = [];
  plen = 0;
  payload = [];
  fw_crc = crc;
}

abbrev pub mask : Mask
mask = record { m0 = 17; m1 = 34; m2 = 51; m3 = 68 }

abbrev channel : Channel Chip Sent
channel = record {
  ws = idle_ws (crc16_ccitt 0 (image chip_flash (λ c. c.mem) open_session blank_chip));
  upg = open_session;
  flash = blank_chip;
  line = [];
}

abbrev ping : List ℕ
ping = client_frame 9 mask (5 ∷ 6 ∷ [])

-- The same ping, byte by byte.
abbrev eight : List ℕ
eight = 137 ∷ 130 ∷ 17 ∷ 34 ∷ 51 ∷ 68 ∷ 20 ∷ 36 ∷ []

-- A ping is answered with its payload.
pong :
    (ws_feed chip_flash recording no_command channel ping).line ≡ (138 ∷ 2 ∷ []) ∷ (5 ∷ 6 ∷ []) ∷ []
unfolding ws_feed length_field masked_from
pong = refl

ws_feed-client_frame_example :
    ws_feed chip_flash recording no_command channel (ping ++ (129 ∷ []))
    ≡ ws_feed chip_flash recording no_command
        (frame_result chip_flash recording no_command channel 9 mask (5 ∷ 6 ∷ []))
        (129 ∷ [])
ws_feed-client_frame_example =
    ws_feed-client_frame chip_flash recording no_command channel 9 mask (5 ∷ 6 ∷ []) (129 ∷ [])
      (refl, refl, refl) (omega arith) (omega arith) (omega arith) (omega arith, (omega arith, tt))
      (omega arith, (omega arith, (omega arith, (omega arith, tt))))

ws_feed_empty_frame_example :
    ws_feed chip_flash recording no_command channel (client_frame 9 mask [] ++ eight)
    ≡ record channel {
      ws =
          record (delivered channel.ws 9 mask
            (swallowed chip_flash recording no_command mask [] eight)) { plen = 0 };
    }
ws_feed_empty_frame_example =
    ws_feed_empty_frame chip_flash recording no_command channel 9 mask eight (refl, refl, refl)
      (omega arith) (omega arith)

ws_feed-InBounds_example :
    InBounds (ws_feed chip_flash recording no_command channel (ping ++ (2 ∷ 255 ∷ 1 ∷ []))).ws
ws_feed-InBounds_example =
    ws_feed-InBounds chip_flash recording no_command (λ k p. refl) channel
      (ping ++ (2 ∷ 255 ∷ 1 ∷ [])) (λ on. (omega arith, omega arith))

abbrev pub chunks : List Chunk
chunks = record { mask = mask; bytes = four } ∷ record { mask = mask; bytes = 9 ∷ 8 ∷ [] } ∷ []

pub chunks-AllChunks : AllChunks chunks
chunks-AllChunks = (
  (
    omega arith,
    omega arith,
    (omega arith, (omega arith, (omega arith, (omega arith, tt)))),
    (omega arith, (omega arith, (omega arith, (omega arith, tt)))),
  ),
  (
    (
      omega arith,
      omega arith,
      (omega arith, (omega arith, tt)),
      (omega arith, (omega arith, (omega arith, (omega arith, tt)))),
    ),
    tt,
  ),
)

ws_feed-Uploaded_example :
    Uploaded chip_flash
      (λ c. c.mem)
      recording
      no_command
      channel
      (1 ∷ 2 ∷ 3 ∷ 4 ∷ 9 ∷ 8 ∷ [])
      (ws_feed chip_flash recording no_command channel (stream chunks))
ws_feed-Uploaded_example =
    ws_feed-Uploaded chip_flash (λ c. c.mem) recording no_command chip_flash-IsNor chip_writes
      channel chunks chunks-AllChunks
      (record {
        idle = (refl, refl, refl);
        on = refl;
        sound = refl;
        receiving = open-Receiving;
        checked = refl;
        bounded = omega arith;
      })
      (omega arith)
