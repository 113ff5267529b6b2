-- ===== src/Fw/Udp.antt =====
-- src/fw/fw_udp.c: the upgrade over UDP. A datagram becomes a message in the queue of the worker
-- task, which works on the session of src/fw/fw_upg.c and answers each message. `boot_set_pending`
-- of MCUboot is a parameter, with the state that it changes; it is given whether the upgrade is
-- permanent. Sockets, tasks and messages to the log are left out.
pub mod Transfer
pub mod End
pub mod Queue
pub mod Tests
use io_edge_hub_freertos.Common.{
  ℕ, zero, suc, ◌+◌, ◌-◌, ◌%◌, ◌^◌, Bool, true, false, not, ◌&&◌, ◌||◌, Option, none, some,
}
use io_edge_hub_freertos.Common.{
  List, [], ◌∷◌, ◌++◌, length, take, drop, byte_at, set, get_or, u8, u16, bit_and, bit_or, ◌<<◌,
  ltb, leb,
}
use io_edge_hub_freertos.Common.{◌==◌, if◌then◌else◌}
use io_edge_hub_freertos.Util.Bytes.{get_le32, put_le32}
use io_edge_hub_freertos.Config.Codec.{get_le16, put_le16}
use io_edge_hub_freertos.Config.Flash.{Flash}
use io_edge_hub_freertos.Fw.Upgrade.{
  Session, Started, started, refused, wrong_key, busy, upg_start, upg_write, upg_finish,
  upg_received,
}

abbrev pub fw_q_depth : ℕ
fw_q_depth = 8

abbrev pub fw_data_max : ℕ
fw_data_max = 511

abbrev pub fw_v2_chunk : ℕ
fw_v2_chunk = 1400

-- The room for the bytes of a message.
abbrev pub fw_v2_max : ℕ
fw_v2_max = 1404

-- `struct fw_msg`; `bytes` are the first `dlen` of its data.
pub record Msg : Type 0 where
  pub cmd : ℕ
  pub addr : ℕ
  pub port : ℕ
  pub bytes : List ℕ

-- `xQueueSend` without a wait; `none` is a queue that was not created.
unfoldable pub queue_send : Option (List Msg) → Msg → Option (List Msg)
queue_send none m = none
queue_send (some q) m = if ltb (length q) fw_q_depth then some (q ++ m ∷ []) else some q

-- The bytes that `fw_udp_cmd` takes from a datagram; `none` is one that it leaves to the caller.
unfoldable pub msg_bytes : List ℕ → Option (List ℕ)
msg_bytes rx =
    let len = length rx in
    let cmd = byte_at rx 0 in
    let rest = drop 1 rx in
    if cmd == 1
    then (if ltb len 5
        then none
        else some (take (if ltb fw_v2_max (len - 1) then fw_v2_max else len - 1) rest))
    else if cmd == 2
    then (if ltb len 2 || ltb fw_data_max (len - 1) then none else some (take (len - 1) rest))
    else if cmd == 6
    then (if ltb len 6 || ltb fw_v2_max (len - 1) then none else some (take (len - 1) rest))
    else if cmd == 3
    then (if ltb len 4 then none else some (take (len - 1) rest))
    else none

-- The second part is whether the datagram was the upgrade's.
unfoldable pub fw_udp_cmd : Option (List Msg) → List ℕ → ℕ → ℕ → Option (List Msg) × Bool
unfolding queue_send msg_bytes
fw_udp_cmd q rx src port =
    let queued : List ℕ → Option (List Msg) × Bool = λ bytes. (
      queue_send q (record { cmd = byte_at rx 0; addr = src; port = port; bytes = bytes }),
      true,
    ) in
    if ltb (length rx) 1
    then (q, false)
    else elim (msg_bytes rx) [ none ↦ (q, false) | some bytes ↦ queued bytes ]

-- `struct fw_reply`, and the two contexts for answers that the network's thread has yet to send.
-- `callbacks` are the contexts of the calls that it has been given, in order.
pub record Reply : Type 0 where
  pub addr : ℕ
  pub port : ℕ
  pub buf : List ℕ

pub record Pool : Type 0 where
  pub replies : List Reply
  pub reply_idx : ℕ
  pub callbacks : List ℕ

unfoldable pub fw_reply : Msg → List ℕ → Pool → Pool
fw_reply m buf p =
    let i = bit_and p.reply_idx 1 in
    record {
      replies = set p.replies i (record { addr = m.addr; port = m.port; buf = buf });
      reply_idx = u8 (p.reply_idx + 1);
      callbacks = p.callbacks ++ i ∷ [];
    }

abbrev pub no_reply : Reply
no_reply = record { addr = 0; port = 0; buf = [] }

-- The network's thread runs the first of its calls: what it sends.
unfoldable pub fw_send_reply_cb : Pool → Pool × Option Reply
fw_send_reply_cb p = elim p.callbacks [
  | [] ↦ (p, none)
  | i ∷ rest ↦ (record p { callbacks = rest }, some (get_or p.replies i no_reply))
]

-- The status of an answer to a START.
unfoldable pub start_status : Started → ℕ
start_status started = 1
start_status wrong_key = 2
start_status refused = 0
start_status busy = 0

-- What the worker's task changes.
pub record Worker (F B : Type 0) : Type 0 where
  pub s : Session
  pub flash : F
  pub boot : B

module _ {F B : Type 0} (fl : Flash F) (fw_keyhash : List ℕ)
    (boot_set_pending : B → Bool → B × Bool) where
  unfoldable pub on_start : Worker F B → List ℕ → Worker F B × List ℕ
  unfolding upg_start get_le32 put_le16 start_status
  on_start w bytes =
      let key = if leb 36 (length bytes) then some (take 32 (drop 4 bytes)) else none in
      let (s', f', rc) = upg_start fl fw_keyhash w.s w.flash (get_le32 bytes 0) key in
      (record w { s = s'; flash = f' }, 1 ∷ start_status rc ∷ put_le16 fw_v2_chunk)

  -- The answer to either command for data.
  abbrev pub received : ℕ → Session → List ℕ
  received cmd s = cmd ∷ put_le32 (upg_received s)

  unfoldable pub on_data : Worker F B → List ℕ → Worker F B × List ℕ
  unfolding upg_write upg_received put_le32
  on_data w bytes =
      let (s', f', done) = upg_write fl w.s w.flash bytes in
      (record w { s = s'; flash = f' }, received 2 s')

  unfoldable pub on_data_v2 : Worker F B → List ℕ → Worker F B × List ℕ
  unfolding upg_write upg_received put_le32 get_le32
  on_data_v2 w bytes =
      let (s', f', done) = upg_write fl w.s w.flash (drop 4 bytes) in
      if leb 5 (length bytes) && (get_le32 bytes 0 == upg_received w.s)
      then (record w { s = s'; flash = f' }, received 6 s')
      else (w, received 6 w.s)

  unfoldable pub on_end : Worker F B → List ℕ → Worker F B × List ℕ
  unfolding upg_finish get_le16
  on_end w bytes =
      let (s', f', done) = upg_finish fl fw_keyhash w.s w.flash (get_le16 bytes 1) in
      let w' = record w { s = s'; flash = f' } in
      let (boot', marked) = boot_set_pending w.boot (byte_at bytes 0 == 0) in
      if done
      then (record w' { boot = boot' }, 3 ∷ (if marked then 1 else 0) ∷ [])
      else (w', 3 ∷ 0 ∷ [])

  -- A round of `fw_task`: the answer, if there is one.
  unfoldable pub fw_task_step : Worker F B → Msg → Worker F B × Option (List ℕ)
  unfolding on_start on_data on_data_v2 on_end
  fw_task_step w m =
      let answered : Worker F B × List ℕ → Worker F B × Option (List ℕ) = λ r. (r.0, some r.1) in
      if m.cmd == 1
      then answered (on_start w m.bytes)
      else if m.cmd == 2
      then answered (on_data w m.bytes)
      else if m.cmd == 6
      then answered (on_data_v2 w m.bytes)
      else if m.cmd == 3
      then answered (on_end w m.bytes)
      else (w, none)
