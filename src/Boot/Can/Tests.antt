-- ===== src/Boot/Can/Tests.antt =====
-- A rescue upgrade of 64 bytes on a flash in memory, and the ways it does not come about.
use io_edge_hub_freertos.Common.{
  ℕ, ◌+◌, ◌*◌, ◌^◌, ◌≡◌, refl, arith, true, false, none, some, List, [], ◌∷◌, ◌++◌, map, replicate,
  take,
}
use io_edge_hub_freertos.Config.Flash.{cells}
use io_edge_hub_freertos.Util.Bytes.{put_le32}
use io_edge_hub_freertos.Fw.Upgrade.{same_bytes}
use io_edge_hub_freertos.Net.UdpCfg.{Version}
use io_edge_hub_freertos.Fw.Can.{fw_send_version_string}
use io_edge_hub_freertos.Fw.Can.Version.{payload, Numbered, fw_send_version_string-payload}
use io_edge_hub_freertos.Storage.IntFlash.Success.{AllSucceed}
use io_edge_hub_freertos.Storage.IntFlash.Tests.{Cells, hal, hal-IsIntFlash}
use io_edge_hub_freertos.Boot.Can.Driver.{Rx, RxBox, Sent, free_box, can_send, can_recv, delivered}
use io_edge_hub_freertos.Boot.Can.Driver.Frames.{can_recv-can_send}
use io_edge_hub_freertos.Boot.Can.{elapsed, Session, Poll, Boot, slot0_addr}
use io_edge_hub_freertos.Boot.Can.Safety.{Safe}
use io_edge_hub_freertos.Boot.Can.Wait.{no_session, wait_loop, boot_can_wait}
use io_edge_hub_freertos.Boot.Can.Wait.Safety.{boot_can_wait-Safe}
use io_edge_hub_freertos.Boot.Can.Wait.Idle.{wait_loop-Quiet}
use io_edge_hub_freertos.Boot.Can.Transfer.{joined, data_rx, cmd_rx, take_frames}
use io_edge_hub_freertos.Boot.Can.Install.{cells-take_frames}
use io_edge_hub_freertos.Boot.Can.Key.{key_frames, start_wrong_key}

hal-AllSucceed : AllSucceed hal
hal-AllSucceed = record {
  unlock_ok = λ f. refl;
  lock_ok = λ f. refl;
  erase_ok = λ f n. refl;
  word_ok = λ f a w. refl;
  byte_ok = λ f a v. refl;
}

abbrev key : List ℕ
key = replicate 32 9

abbrev other_key : List ℕ
other_key = replicate 32 8

abbrev version : Version
version = record { major = 1; minor = 20; patch = 3; git = 97 ∷ 98 ∷ [] }

-- A host that acknowledges the probe, announces 64 bytes, and falls silent.
abbrev acknowledge : RxBox
acknowledge = record { rir = 0x107 * 2 ^ 21; rdtr = 1; rdlr = 0; rdhr = 0 }

abbrev announce : RxBox
announce = record { rir = 0x101 * 2 ^ 21; rdtr = 8; rdlr = 0; rdhr = 64 }

abbrev silent : ℕ → Poll
silent now = record { before = now; box = none; after = now }

abbrev polls : List Poll
polls =
    record { before = 10; box = some acknowledge; after = 10 }
    ∷ silent 20
    ∷ record { before = 30; box = some announce; after = 30 }
    ∷ silent 15020
    ∷ silent 15030
    ∷ []

abbrev boot : Session → List Poll → Boot Cells
boot s ps = record {
  s = s;
  flash = λ i. 0;
  polls = ps;
  rx = record { ret = 0; id = 0; bytes = replicate 8 0 };
  sent = [];
}

boot_can_wait-Safe_example :
    Safe hal
      (λ f. f)
      hal-IsIntFlash
      (λ i. 0)
      (boot_can_wait hal key version true false 0 25 (boot no_session polls)).0
boot_can_wait-Safe_example =
    boot_can_wait-Safe hal (λ f. f) hal-IsIntFlash key version true false 0 25
      (boot no_session polls)

wait_loop-Quiet_example :
    let r =
      wait_loop hal key version 5
        (boot no_session (silent 20 ∷ silent 15000 ∷ silent 15010 ∷ [])) in
    (r.1 ≡ true) × (r.0.s ≡ no_session) × (r.0.flash ≡ (λ i. 0)) × (r.0.polls ≡ silent 15010 ∷ [])
unfolding elapsed
wait_loop-Quiet_example =
    wait_loop-Quiet hal key version (silent 20 ∷ []) (silent 15000) (silent 15010 ∷ []) 5
      (boot no_session (silent 20 ∷ silent 15000 ∷ silent 15010 ∷ [])) refl refl (omega arith)
      (refl, refl, tt) refl refl

abbrev frames : List (List ℕ)
frames = replicate 7 (1 ∷ 2 ∷ 3 ∷ 4 ∷ 5 ∷ 6 ∷ 7 ∷ 8 ∷ []) ++ replicate 2 (5 ∷ 6 ∷ 7 ∷ 8 ∷ [])

cells-take_frames_example :
    let b' =
      take_frames hal key version
        (cmd_rx 0 64 ∷ (map data_rx frames ++ cmd_rx 1 0 ∷ []))
        (boot no_session []) in
    (b'.s.installed ≡ true)
    × (b'.s.confirmed ≡ true)
    × (cells b'.flash slot0_addr 64 ≡ joined frames)
cells-take_frames_example =
    cells-take_frames hal key version (λ f. f) hal-IsIntFlash hal-AllSucceed (boot no_session []) 64
      frames (λ full. absurd (cc full)) (omega arith) (omega arith) (omega arith) refl

start_wrong_key_example :
    let b' =
      take_frames hal key version (key_frames other_key ++ cmd_rx 0 64 ∷ []) (boot no_session []) in
    (b'.flash ≡ (λ i. 0))
    × (b'.s.active ≡ false)
    × (b'.s.key_mask ≡ 0)
    × (b'.sent
        ≡ []
          ++ record { id = 0x108; bytes = 6 ∷ [] } ∷ []
          ++ record { id = 0x102; bytes = put_le32 6 ++ put_le32 0 } ∷ [])
unfolding same_bytes
start_wrong_key_example =
    start_wrong_key hal key version other_key refl (boot no_session []) 64 (omega arith) refl
      (omega arith) refl

abbrev text : List ℕ
text = 118 ∷ 49 ∷ 46 ∷ 50 ∷ 48 ∷ 46 ∷ 51 ∷ 95 ∷ 97 ∷ 98 ∷ []

fw_send_version_string-payload_example :
    (take 10 (payload (fw_send_version_string text 10)) ≡ text)
    × Numbered 0 (fw_send_version_string text 10)
fw_send_version_string-payload_example = fw_send_version_string-payload text (omega arith)

-- Three bytes, by a receiver whose buffer holds others.
abbrev caller : Rx
caller = record { ret = 0; id = 0; bytes = replicate 8 7 }

-- The first mailbox is taken, and no frame is ever seen to be sent.
abbrev one_taken : ℕ
one_taken = 2 ^ 27 + 2 ^ 28

taken : free_box one_taken ≡ some 1
unfolding free_box
taken = refl

can_recv-can_send_example :
    (t : Sent) × (can_send one_taken (λ k. 0) 0x105 (1 ∷ 2 ∷ 3 ∷ []) ≡ some t)
    × (t.box ≡ 1)
    × ((can_recv caller (some (delivered t.mailbox))).ret ≡ 3)
    × ((can_recv caller (some (delivered t.mailbox))).id ≡ 0x105)
    × (take 3 (can_recv caller (some (delivered t.mailbox))).bytes ≡ 1 ∷ 2 ∷ 3 ∷ [])
can_recv-can_send_example =
    can_recv-can_send caller one_taken 1 0x105 (λ k. 0) (1 ∷ 2 ∷ 3 ∷ []) taken (omega arith)
      (omega arith)
