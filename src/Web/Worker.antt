-- ===== src/Web/Worker.antt =====
-- src/web/ws.c: the worker that starts and ends an upgrade, and the two commands that queue its
-- work. The image is marked for the boot loader by boot_set_pending of MCUboot, a parameter.
pub mod EndToEnd
mod Tests
use io_edge_hub_freertos.Common.{
  ℕ, ◌^◌, Bool, true, false, not, ◌||◌, Option, none, some, List, [], ◌∷◌, length, leb, ◌==◌,
  if◌then◌else◌,
}
use io_edge_hub_freertos.Config.Flash.{Flash}
use io_edge_hub_freertos.Fw.Upgrade.{
  Session, Started, started, refused, wrong_key, busy, keyhash_len,
}
use io_edge_hub_freertos.Fw.Upgrade.{upg_start, upg_abort, upg_received, upg_total, upg_finish}
use io_edge_hub_freertos.Web.Base64.{b64_decode}

-- `struct ws_fw_op`
pub data FwOp : Type 0 where
  op_start : ℕ → Option (List ℕ) → FwOp
  op_end : ℕ → FwOp

-- The texts of the answers.
pub data Reply : Type 0 where
  ok keyhash_mismatch already_in_progress erase_init no_data size_mismatch crc_mismatch : Reply
  boot_request bad_size not_in_progress : Reply

-- What the worker changes; `boot` is MCUboot's state, `reboot` the flag of set_reboot_status.
pub record Worker (F B : Type 0) : Type 0 where
  pub upg : Session
  pub flash : F
  pub boot : B
  pub reboot : Bool

unfoldable pub start_reply : Started → Reply
start_reply started = ok
start_reply refused = erase_init
start_reply wrong_key = keyhash_mismatch
start_reply busy = already_in_progress

module _ {F B : Type 0} (fl : Flash F) (fw_keyhash : List ℕ) (boot_set_pending : B → B × Bool) where
  -- After a check that passed the image is marked, and the device restarts; boot_set_pending gives
  -- true for the return of 0.
  unfoldable pub request_swap : Worker F B → Worker F B × Reply
  request_swap w =
      let (b, marked) = boot_set_pending w.boot in
      if marked
      then (record w { boot = b; reboot = true }, ok)
      else (record w { boot = b }, boot_request)

  -- A round of `ws_fw_task` for the operation taken from the queue, with the answer.
  unfoldable pub ws_fw_task : Worker F B → FwOp → Worker F B × Reply
  unfolding start_reply request_swap
  ws_fw_task w (op_start total kh) =
      let (s, f, rc) = upg_start fl fw_keyhash w.upg w.flash total kh in
      (record w { upg = s; flash = f }, start_reply rc)
  ws_fw_task w (op_end crc) =
      let got = upg_received w.upg in
      let (s, f, checked) = upg_finish fl fw_keyhash w.upg w.flash crc in
      let after : Worker F B = record w { upg = s; flash = f } in
      if got == 0
      then (record w { upg = upg_abort w.upg }, no_data)
      else if not (got == upg_total w.upg)
      then (record w { upg = upg_abort w.upg }, size_mismatch)
      else if not checked
      then (after, crc_mismatch)
      else request_swap after

-- What a command makes: an operation for the queue, or an answer.
pub data Queued : Type 0 where
  queued : FwOp → Queued
  answered : Reply → Queued

-- `fw_start`: `fw_size` has the 32 bits of the signed number, `keyhash` is the Base64 text.
unfoldable pub cmd_fw_start : ℕ → Option (List ℕ) → Queued
cmd_fw_start fw_size keyhash =
    if fw_size == 0 || leb (2 ^ 31) fw_size then answered bad_size else elim keyhash [
      | none ↦ queued (op_start fw_size none)
      | some text ↦ elim (b64_decode text keyhash_len) [
        | none ↦ answered keyhash_mismatch
        | some kh ↦
            if length kh == keyhash_len
            then queued (op_start fw_size (some kh))
            else answered keyhash_mismatch
      ]
    ]

-- `fw_end` takes the checksum of the frames so far.
unfoldable pub cmd_fw_end : Session → ℕ → Queued
cmd_fw_end s fw_crc = if s.active then queued (op_end fw_crc) else answered not_in_progress
