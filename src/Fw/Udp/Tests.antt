-- ===== src/Fw/Udp/Tests.antt =====
-- An upgrade over UDP on the driver over a part in memory.
use io_edge_hub_freertos.Common.{
  ℕ, suc, ◌≤◌, ◌≡◌, refl, arith, Bool, true, false, ◌&&◌, some, List, [], ◌∷◌, replicate,
  if◌then◌else◌,
}
use io_edge_hub_freertos.Util.Bytes.{get_le32}
use io_edge_hub_freertos.Storage.W25qxx.Tests.{
  Chip, chip_flash, chip_flash-IsNor, chip_reads, chip_writes, blank_chip,
}
use io_edge_hub_freertos.Fw.Upgrade.Tests.{open_session, open-Receiving}
use io_edge_hub_freertos.Fw.Udp.{
  Msg, Pool, Worker, fw_v2_max, msg_bytes, fw_reply, fw_send_reply_cb, no_reply, on_end,
}
use io_edge_hub_freertos.Fw.Udp.Queue.{msg_bytes-le, fw_send_reply_cb-fw_reply}
use io_edge_hub_freertos.Fw.Udp.Transfer.{IsSlice, IsPrefix, progress, after, after-IsPrefix}
use io_edge_hub_freertos.Fw.Udp.End.{verified, on_end-verified}

abbrev key : List ℕ
key = replicate 32 9

abbrev count_requests : ℕ → Bool → ℕ × Bool
count_requests n permanent = (suc n, true)

-- A file of six bytes, and a session that has announced it.
abbrev file : List ℕ
file = 1 ∷ 2 ∷ 3 ∷ 4 ∷ 5 ∷ 6 ∷ []

abbrev begun : Worker Chip ℕ
begun = record {
  s = record { active = true; failed = false; total = 6; written = 0; page = [] };
  flash = blank_chip;
  boot = 0;
}

begun-IsPrefix :
    IsPrefix chip_flash (λ c. c.mem) chip_flash-IsNor chip_writes key count_requests file begun
begun-IsPrefix = record {
  on = refl;
  ok = refl;
  receiving = record {
    aligned = refl;
    short = omega arith;
    fits = omega arith;
    blank = λ i lo hi. refl;
  };
  sized = refl;
  fits = omega arith;
  short = omega arith;
  so_far = refl;
}

abbrev message : ℕ → List ℕ → Msg
message cmd bytes = record { cmd = cmd; addr = 10; port = 8600; bytes = bytes }

-- The second half too early, the first half twice.
abbrev messages : List Msg
messages =
    message 6 (3 ∷ 0 ∷ 0 ∷ 0 ∷ 4 ∷ 5 ∷ 6 ∷ [])
    ∷ message 6 (0 ∷ 0 ∷ 0 ∷ 0 ∷ 1 ∷ 2 ∷ 3 ∷ [])
    ∷ message 6 (0 ∷ 0 ∷ 0 ∷ 0 ∷ 1 ∷ 2 ∷ 3 ∷ [])
    ∷ []

late-IsSlice : IsSlice file (3 ∷ 0 ∷ 0 ∷ 0 ∷ 4 ∷ 5 ∷ 6 ∷ [])
unfolding get_le32
late-IsSlice = record { some_bytes = omega arith; slice = refl; within = omega arith }

first-IsSlice : IsSlice file (0 ∷ 0 ∷ 0 ∷ 0 ∷ 1 ∷ 2 ∷ 3 ∷ [])
unfolding get_le32
first-IsSlice = record { some_bytes = omega arith; slice = refl; within = omega arith }

after-IsPrefix_example :
    IsPrefix chip_flash
      (λ c. c.mem)
      chip_flash-IsNor
      chip_writes
      key
      count_requests
      file
      (after chip_flash
        (λ c. c.mem)
        chip_flash-IsNor
        chip_writes
        key
        count_requests
        file
        begun
        messages)
    × (0
        ≤ progress chip_flash
            (λ c. c.mem)
            chip_flash-IsNor
            chip_writes
            key
            count_requests
            file
            (after chip_flash
              (λ c. c.mem)
              chip_flash-IsNor
              chip_writes
              key
              count_requests
              file
              begun
              messages))
after-IsPrefix_example =
    after-IsPrefix chip_flash (λ c. c.mem) chip_flash-IsNor chip_writes key count_requests file
      begun messages begun-IsPrefix
      (refl, late-IsSlice, (refl, first-IsSlice, (refl, first-IsSlice, tt)))

abbrev received_510 : Worker Chip ℕ
received_510 = record { s = open_session; flash = blank_chip; boot = 0 }

on_end-verified_example :
    ((on_end chip_flash key count_requests received_510 (0 ∷ 0x34 ∷ 0x12 ∷ [])).0.boot ≡ (
      if verified chip_flash key count_requests
        (λ c. c.mem)
        chip_reads
        chip_flash-IsNor
        chip_writes
        received_510
        (0 ∷ 0x34 ∷ 0x12 ∷ [])
      then 1
      else 0))
    × ((on_end chip_flash key count_requests received_510 (0 ∷ 0x34 ∷ 0x12 ∷ [])).1
        ≡ 3
          ∷ (if verified chip_flash key count_requests
                  (λ c. c.mem)
                  chip_reads
                  chip_flash-IsNor
                  chip_writes
                  received_510
                  (0 ∷ 0x34 ∷ 0x12 ∷ [])
                && true
              then 1
              else 0)
          ∷ [])
on_end-verified_example =
    on_end-verified chip_flash key count_requests (λ c. c.mem) chip_reads chip_flash-IsNor
      chip_writes received_510 (0 ∷ 0x34 ∷ 0x12 ∷ []) refl refl open-Receiving

-- A START with a fingerprint and more after it.
abbrev long_start : List ℕ
long_start = 1 ∷ replicate 1405 0

msg_bytes-le_example : 1404 ≤ fw_v2_max
unfolding msg_bytes
msg_bytes-le_example = msg_bytes-le long_start (replicate 1404 0) (omega arith) refl

abbrev pool : Pool
pool = record { replies = no_reply ∷ no_reply ∷ []; reply_idx = 255; callbacks = [] }

fw_send_reply_cb-fw_reply_example :
    let p1 = fw_reply (message 2 []) (2 ∷ 5 ∷ []) (fw_reply (message 1 []) (1 ∷ 1 ∷ []) pool) in
    let (p2, first) = fw_send_reply_cb p1 in
    let (p3, second) = fw_send_reply_cb p2 in
    (first ≡ some (record { addr = 10; port = 8600; buf = 1 ∷ 1 ∷ [] }))
    × (second ≡ some (record { addr = 10; port = 8600; buf = 2 ∷ 5 ∷ [] }))
    × (p3.callbacks ≡ [])
fw_send_reply_cb-fw_reply_example =
    fw_send_reply_cb-fw_reply (message 1 []) (message 2 []) (1 ∷ 1 ∷ []) (2 ∷ 5 ∷ []) pool refl
