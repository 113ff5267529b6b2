-- ===== src/Boot/Can.antt =====
-- src/boot/boot_can.c: the rescue upgrade over CAN that the boot loader offers. What the CAN
-- controller and the clock give is an explicit sequence of polls, the frames sent are a list, and
-- the internal flash is Storage/IntFlash.antt over the HAL. The key's fingerprint and the version
-- are the build's. The watchdog and the messages of the serial port are left out.
pub mod Driver
pub mod Wait
pub mod Transfer
pub mod Install
pub mod Key
pub mod Tests
pub mod Safety
use io_edge_hub_freertos.Common.{
  ℕ, zero, suc, ◌+◌, ◌-◌, ◌*◌, ◌/◌, ◌%◌, ◌^◌, Bool, true, false, not, ◌&&◌, ◌||◌, Option,
}
use io_edge_hub_freertos.Common.{
  List, [], ◌∷◌, ◌++◌, length, take, drop, replicate, byte_at, bit_and, bit_or, u8, u32, ◌<<◌, ◌>>◌,
}
use io_edge_hub_freertos.Common.{ltb, leb, ◌==◌, if◌then◌else◌}
use io_edge_hub_freertos.Util.Bytes.{put_le32, get_le32}
use io_edge_hub_freertos.Fw.Upgrade.{same_bytes}
use io_edge_hub_freertos.Fw.Can.{put_bytes, version_loop}
use io_edge_hub_freertos.Net.UdpCfg.{Version}
use io_edge_hub_freertos.Storage.IntFlash.{Hal, align_4k, intflash_erase, intflash_write}
use io_edge_hub_freertos.Boot.Can.Driver.{Rx, RxBox, can_recv}

abbrev pub slot0_addr : ℕ
slot0_addr = 0x08010000

abbrev pub slot0_size : ℕ
slot0_size = 0x70000

-- The session, `s` of the file.
pub record Session : Type 0 where
  pub active : Bool
  pub total : ℕ
  pub written : ℕ
  pub confirmed : Bool
  pub installed : Bool
  pub last_activity : ℕ
  pub keybuf : List ℕ
  pub key_mask : ℕ

-- A frame given to `can_send`.
pub record Frame : Type 0 where
  pub id : ℕ
  pub bytes : List ℕ

-- What a poll of the controller finds, and the clock before and after it.
pub record Poll : Type 0 where
  pub before : ℕ
  pub box : Option RxBox
  pub after : ℕ

pub record Boot (H : Type 0) : Type 0 where
  pub s : Session
  pub flash : H
  pub polls : List Poll
  pub rx : Rx
  pub sent : List Frame

-- The `FW_CODE_` constants.
pub data Code : Type 0 where
  offset update_success version confirm flash_error transfer_error keyhash_error : Code

unfoldable pub code_value : Code → ℕ
code_value offset = 0
code_value update_success = 1
code_value version = 2
code_value confirm = 3
code_value flash_error = 4
code_value transfer_error = 5
code_value keyhash_error = 6

abbrev pub confirm_magic : ℕ
confirm_magic = 0x55AA55AA

-- The decimal digits of a value below 1000.
unfoldable pub put_u8 : ℕ → List ℕ
put_u8 v =
    (if leb 100 v then (48 + v / 100) ∷ [] else [])
    ++ (if leb 10 v then (48 + v / 10 % 10) ∷ [] else [])
    ++ (48 + v % 10) ∷ []

-- `ver` has room for `room` characters and the end of the string.
unfoldable pub build_version : Version → ℕ → List ℕ
unfolding put_u8
build_version v room =
    let front =
      118 ∷ []
      ++ put_u8 v.major
      ++ 46 ∷ []
      ++ put_u8 v.minor
      ++ 46 ∷ []
      ++ put_u8 v.patch
      ++ 95 ∷ [] in
    front ++ take (room - 1 - length front) v.git

-- `(int32_t)(a - b) >= n`
unfoldable pub elapsed : ℕ → ℕ → ℕ → Bool
elapsed a b n = let d = u32 (a + 2 ^ 32 - b) in leb n d && ltb d (2 ^ 31)

-- `while (can_recv(…) != 0u)`, with the caller's variables and the polls left; a list that ends
-- stands for an empty FIFO.
unfoldable pub drain : Rx → List Poll → Rx × List Poll
unfolding can_recv
drain rx [] = (rx, [])
drain rx (p ∷ ps) =
    let next = can_recv rx p.box in
    elim (next.ret == 0) [ true ↦ (next, ps) | false ↦ drain next ps ]

module _ {H : Type 0} where
  unfoldable pub can_put : ℕ → List ℕ → Boot H → Boot H
  can_put id bytes b = record b { sent = b.sent ++ record { id = id; bytes = bytes } ∷ [] }

  unfoldable pub fw_reply : Code → ℕ → Boot H → Boot H
  unfolding code_value put_le32 can_put
  fw_reply code arg b = can_put 0x102 (put_le32 (code_value code) ++ put_le32 arg) b

  unfoldable pub send_trace : ℕ → Boot H → Boot H
  unfolding can_put
  send_trace phase b = can_put 0x108 (phase ∷ []) b

  unfoldable pub send_probe : Version → Boot H → Boot H
  unfolding can_put put_le32
  send_probe v b =
      can_put 0x106 (put_le32 0x42544F31 ++ u8 v.major ∷ u8 v.minor ∷ u8 v.patch ∷ 0 ∷ []) b

  -- Each of these in turn as a frame 0x105.
  unfoldable pub put_versions : List (List ℕ) → Boot H → Boot H
  unfolding can_put
  put_versions [] b = b
  put_versions (d ∷ ds) b = put_versions ds (can_put 0x105 d b)

  -- The loop is the one of src/fw/fw_can.c.
  unfoldable pub send_version_string : List ℕ → ℕ → Boot H → Boot H
  unfolding put_versions version_loop
  send_version_string ver len b = put_versions (version_loop (suc len) ver len 0 0) b

  unfoldable pub handle_keyhash : List ℕ → ℕ → Boot H → Boot H
  unfolding put_bytes
  handle_keyhash bytes dlc b =
      let seq = byte_at bytes 0 in
      let rem = u8 (2 ^ 16 + 32 - seq * 7) in
      let chunk = if ltb rem 7 then rem else 7 in
      if leb 5 seq || ltb dlc (1 + chunk) then b else record b {
        s = record (b.s) {
          keybuf = put_bytes b.s.keybuf (seq * 7) (take chunk (drop 1 bytes));
          key_mask = u8 (bit_or b.s.key_mask (u8 (1 << seq)));
        };
      }

  module _ (hal : Hal H) (fw_keyhash : List ℕ) where
    -- The case FW_CMD_START after the check of the key.
    unfoldable pub open_slot : ℕ → Boot H → Boot H
    unfolding intflash_erase fw_reply
    open_slot size b =
        let (f, done) = intflash_erase hal b.flash slot0_addr (align_4k size) in
        let b' = record b { flash = f } in
        if ltb size 64 || ltb slot0_size size
        then fw_reply flash_error 0 b
        else if not done
        then fw_reply flash_error 0 b'
        else fw_reply offset 0
            (record b' { s = record (b.s) { active = true; total = size; written = 0 } })

    unfoldable pub cmd_start : ℕ → Boot H → Boot H
    unfolding open_slot send_trace fw_reply same_bytes
    cmd_start size b =
        let full = bit_and b.s.key_mask 31 == 31 in
        let b1 = send_trace 6 b in
        let b2 = record b1 { s = record (b1.s) { key_mask = if full then 0 else b1.s.key_mask } } in
        if full && not (same_bytes b.s.keybuf fw_keyhash)
        then fw_reply keyhash_error 0 b2
        else open_slot size b2

    unfoldable pub cmd_confirm : Boot H → Boot H
    unfolding drain fw_reply
    cmd_confirm b =
        let b1 = record b { polls = (drain b.rx b.polls).1; s = record (b.s) { active = false } } in
        let b2 = fw_reply confirm confirm_magic b1 in
        if not b.s.active
        then fw_reply transfer_error 0 b
        else if not (b.s.written == b.s.total)
        then fw_reply transfer_error 0 b1
        else record b2 { s = record (b2.s) { installed = true; confirmed = true } }

    unfoldable pub handle_cmd : Version → List ℕ → ℕ → Boot H → Boot H
    unfolding cmd_start cmd_confirm build_version send_version_string get_le32 fw_reply
    handle_cmd v bytes dlc b =
        let cmd = get_le32 bytes 0 in
        let ver = build_version v 24 in
        if not (dlc == 8)
        then fw_reply flash_error 0 b
        else if cmd == 0
        then cmd_start (get_le32 bytes 4) b
        else if cmd == 1
        then cmd_confirm b
        else if cmd == 2
        then send_version_string ver (u8 (length ver)) (fw_reply version (length ver) b)
        else if cmd == 3
        then record b { s = record (b.s) { confirmed = true } }
        else b

    -- The reply after a bytes frame that was written.
    unfoldable pub progress : Boot H → Boot H
    unfolding fw_reply
    progress b =
        if b.s.written == b.s.total
        then fw_reply update_success b.s.total b
        else if b.s.written % 512 == 0
        then fw_reply offset b.s.written b
        else b

    unfoldable pub handle_data : List ℕ → ℕ → Boot H → Boot H
    unfolding progress intflash_write fw_reply
    handle_data bytes dlc b =
        let (f, done) = intflash_write hal b.flash (slot0_addr + b.s.written) (take dlc bytes) in
        let closed = record (b.s) { active = false } in
        if not b.s.active
        then fw_reply transfer_error 0 b
        else if dlc == 0 || ltb b.s.total (u32 (b.s.written + dlc))
        then fw_reply transfer_error 0 (record b { s = closed })
        else if not done
        then fw_reply flash_error 0 (record b { flash = f; s = closed })
        else progress
            (record b { flash = f; s = record (b.s) { written = u32 (b.s.written + dlc) } })

    -- The second part is whether the frame belongs to the upgrade.
    unfoldable pub handle_frame : Version → Rx → Boot H → Boot H × Bool
    unfolding handle_cmd handle_data handle_keyhash
    handle_frame v r b =
        if r.ret == 0xFF
        then (b, true)
        else if r.id == 0x101
        then (if leb 4 r.ret then handle_cmd v r.bytes r.ret b else b, true)
        else if r.id == 0x103
        then (handle_data r.bytes r.ret b, true)
        else if r.id == 0x104
        then (if leb 1 r.ret then handle_keyhash r.bytes r.ret b else b, true)
        else (b, false)
