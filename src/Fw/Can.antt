-- ===== src/Fw/Can.antt =====
-- src/fw/fw_can.c: data and key frames of an upgrade over CAN, and the frames sent back. A frame is
-- its 8 bytes with `dlc`, the number of them that count. The queue and the commands of frame 0x101
-- are in Fw/Can/Commands.antt; the logging is left out.
pub mod Frames
pub mod Commands
pub mod Version
use io_edge_hub_freertos.Common.{
  ℕ, zero, suc, ◌+◌, ◌-◌, ◌*◌, ◌%◌, ◌^◌, Bool, true, false, not, ◌||◌, Option, none, some,
}
use io_edge_hub_freertos.Common.{
  List, [], ◌∷◌, ◌++◌, length, take, drop, set, replicate, byte_at, bit_or, u8,
}
use io_edge_hub_freertos.Common.{◌<<◌, ltb, leb, ◌==◌, if◌then◌else◌}
use io_edge_hub_freertos.Util.Bytes.{put_le32}
use io_edge_hub_freertos.Config.Flash.{Flash}
use io_edge_hub_freertos.Fw.Upgrade.{Session, keyhash_len, upg_write, upg_received, upg_total}

-- The response codes that the two handlers send.
pub data Code : Type 0 where
  offset update_success flash_error transfer_error : Code

unfoldable pub code_value : Code → ℕ
code_value offset = 0
code_value update_success = 1
code_value flash_error = 4
code_value transfer_error = 5

-- The bytes of frame 0x102.
unfoldable pub fw_reply : Code → ℕ → List ℕ
unfolding code_value put_le32
fw_reply code arg = put_le32 (code_value code) ++ put_le32 arg

-- The frames 0x105 of a version string from `off` on, with fuel; a round sends a byte at least.
unfoldable pub version_loop : ℕ → List ℕ → ℕ → ℕ → ℕ → List (List ℕ)
version_loop zero ver len off seq = []
version_loop (suc fuel) ver len off seq =
    let left = u8 (len - off) in
    let chunk = if ltb 7 left then 7 else left in
    elim (ltb off len) [
      | false ↦ []
      | true ↦
          (seq ∷ (take chunk (drop off ver) ++ replicate (7 - chunk) 0))
          ∷ version_loop fuel ver len (u8 (off + 7)) (u8 (seq + 1))
    ]

unfoldable pub fw_send_version_string : List ℕ → ℕ → List (List ℕ)
unfolding version_loop
fw_send_version_string ver len = version_loop (suc len) ver len 0 0

-- `rx_keybuf` and `key_chunk_mask`
pub record Key : Type 0 where
  pub rx_keybuf : List ℕ
  pub key_chunk_mask : ℕ

-- `memcpy` of bytes into a buffer, from offset `i` on.
unfoldable pub put_bytes : List ℕ → ℕ → List ℕ → List ℕ
put_bytes buf i [] = buf
put_bytes buf i (b ∷ bs) = put_bytes (set buf i b) (i + 1) bs

unfoldable pub handle_keyhash : Key → List ℕ → ℕ → Key
unfolding put_bytes
handle_keyhash k d dlc =
    let seq = byte_at d 0 in
    let rem = u8 (2 ^ 16 + keyhash_len - seq * 7) in
    let chunk = if ltb rem 7 then rem else 7 in
    if leb 5 seq || ltb dlc (1 + chunk) then k else record {
      rx_keybuf = put_bytes k.rx_keybuf (seq * 7) (take chunk (drop 1 d));
      key_chunk_mask = u8 (bit_or k.key_chunk_mask (u8 (1 << seq)));
    }

module _ {F : Type 0} (fl : Flash F) where
  unfoldable pub handle_fw_data : Session → F → List ℕ → ℕ → Session × F × Option (List ℕ)
  handle_fw_data s f d dlc =
      let (s', f', done) = upg_write fl s f (take dlc d) in
      let got = upg_received s' in
      if not s.active
      then (s, f, some (fw_reply transfer_error 0))
      else if not done
      then (s', f', some (fw_reply flash_error 0))
      else if got == upg_total s'
      then (s', f', some (fw_reply update_success got))
      else if got % 512 == 0
      then (s', f', some (fw_reply offset got))
      else (s', f', none)
