-- ===== src/Fw/Can/Commands.antt =====
-- src/fw/fw_can.c: the commands of frame 0x101 and the task that takes the frames from its queue.
-- `boot_set_pending` of MCUboot is a parameter, as in Fw/Udp.antt, and so is the text that
-- `snprintf` makes of the version; the restart is a flag.
pub mod Laws
pub mod Tests
use io_edge_hub_freertos.Common.{
  ℕ, ◌+◌, ◌-◌, ◌≡◌, Bool, true, false, not, ◌&&◌, Option, none, some, List, [], ◌∷◌, ◌++◌, length,
  take,
}
use io_edge_hub_freertos.Common.{bit_and, u8, u32, ltb, leb, ◌==◌, if◌then◌else◌}
use io_edge_hub_freertos.Util.Bytes.{put_le32, get_le32}
use io_edge_hub_freertos.Config.Flash.{Flash}
use io_edge_hub_freertos.Fw.Upgrade.{
  Session, Started, started, refused, wrong_key, busy, upg_abort, upg_start, upg_finish_ex,
}
use io_edge_hub_freertos.Fw.Can.{Key, handle_keyhash, handle_fw_data, fw_send_version_string}

-- `struct can_fw_msg`
pub record CanMsg : Type 0 where
  pub id : ℕ
  pub dlc : ℕ
  pub bytes : List ℕ

pub record Sent : Type 0 where
  pub id : ℕ
  pub bytes : List ℕ

-- What the task works on.
pub record Task (F B : Type 0) : Type 0 where
  pub s : Session
  pub flash : F
  pub boot : B
  pub key : Key
  pub fw_q : List CanMsg
  pub sent : List Sent
  pub reset : Bool

module _ {F B : Type 0} where
  -- `fw_reply` with the value of the code.
  unfoldable pub reply : ℕ → ℕ → Task F B → Task F B
  unfolding put_le32
  reply code arg t = record t {
    sent = t.sent ++ record { id = 0x102; bytes = put_le32 code ++ put_le32 arg } ∷ [];
  }

  unfoldable pub put_versions : List (List ℕ) → Task F B → Task F B
  put_versions [] t = t
  put_versions (d ∷ ds) t =
      put_versions ds (record t { sent = t.sent ++ record { id = 0x105; bytes = d } ∷ [] })

  unfoldable pub platform_version : List ℕ → Task F B → Task F B
  unfolding reply put_versions fw_send_version_string
  platform_version text t =
      let len = if ltb 63 (length text) then 0 else length text in
      let ver = take 23 text ++ 0 ∷ [] in
      put_versions (fw_send_version_string ver (u8 len)) (reply 2 len t)

  module _ (fl : Flash F) (fw_keyhash : List ℕ) (boot_set_pending : B → Bool → B × Bool) where
    unfoldable pub start_reply : Started → Task F B → Task F B
    unfolding reply
    start_reply wrong_key t = reply 6 0 t
    start_reply refused t = reply 4 0 t
    start_reply busy t = reply 4 0 t
    start_reply started t = reply 0 0 (record t { fw_q = [] })

    unfoldable pub platform_start : ℕ → Task F B → Task F B
    unfolding start_reply upg_abort upg_start
    platform_start size t =
        let full = bit_and t.key.key_chunk_mask 31 == 31 in
        let key = if full then record (t.key) { key_chunk_mask = 0 } else t.key in
        let kh = if full then some t.key.rx_keybuf else none in
        let (s', f', rc) = upg_start fl fw_keyhash (upg_abort t.s) t.flash size kh in
        start_reply rc (record t { s = s'; flash = f'; key = key })

    unfoldable pub platform_confirm : ℕ → Task F B → Task F B
    unfolding reply upg_finish_ex
    platform_confirm arg t =
        let (s', f', done) = upg_finish_ex fl fw_keyhash t.s t.flash 0 false in
        let t1 = record t { fw_q = []; s = s'; flash = f' } in
        let (boot', marked) = boot_set_pending t.boot (not (arg == 0)) in
        let t2 = record t1 { boot = boot' } in
        if not t.s.active
        then reply 5 0 t
        else if not done
        then reply 5 0 t1
        else if not marked
        then reply 5 0 t2
        else reply 3 0x55AA55AA t2

    unfoldable pub handle_platform_rx : List ℕ → List ℕ → ℕ → Task F B → Task F B
    unfolding platform_start platform_confirm platform_version get_le32 reply
    handle_platform_rx text bytes dlc t =
        let cmd = get_le32 bytes 0 in
        if not (dlc == 8)
        then reply 4 0 t
        else if cmd == 0
        then platform_start (get_le32 bytes 4) t
        else if cmd == 1
        then platform_confirm (get_le32 bytes 4) t
        else if cmd == 2
        then platform_version text t
        else if cmd == 3
        then record t { reset = true }
        else t

    -- Frame 0x103 by `handle_fw_data`.
    unfoldable pub on_fw_data : List ℕ → ℕ → Task F B → Task F B
    unfolding handle_fw_data
    on_fw_data bytes dlc t =
        let (s', f', answer) = handle_fw_data fl t.s t.flash bytes dlc in
        let t' = record t { s = s'; flash = f' } in
        elim answer [
          | none ↦ t'
          | some d ↦ record t' { sent = t.sent ++ record { id = 0x102; bytes = d } ∷ [] }
        ]

    -- A round of `fw_task` with a message taken from the queue.
    unfoldable pub fw_task_step : List ℕ → CanMsg → Task F B → Task F B
    unfolding handle_platform_rx on_fw_data handle_keyhash
    fw_task_step text m t =
        if m.id == 0x101
        then handle_platform_rx text m.bytes m.dlc t
        else if m.id == 0x103
        then on_fw_data m.bytes m.dlc t
        else if m.id == 0x104
        then record t { key = handle_keyhash t.key m.bytes m.dlc }
        else t

-- `fw_can_frame_isr`: a frame goes to the end of the queue, if it has room; `none` is a queue that
-- was not created.
unfoldable pub fw_can_frame_isr : Option (List CanMsg) → ℕ → List ℕ → ℕ → Option (List CanMsg)
fw_can_frame_isr none id bytes dlc = none
fw_can_frame_isr (some q) id bytes dlc =
    if leb dlc 8
    then (if ltb (length q) 32
        then some (q ++ record { id = id; dlc = dlc; bytes = take dlc bytes } ∷ [])
        else some q)
    else some q
