-- ===== src/Fw/Udp/Queue.antt =====
-- The queue of messages and the contexts of answers.
use io_edge_hub_freertos.Common.{ℕ, ◌+◌, ◌-◌, ◌%◌, ◌≤◌, ◌≡◌, ◌≢◌, refl, ap, ◌∙◌, arith}
use io_edge_hub_freertos.Common.{
  Option, none, some, List, [], ◌∷◌, length, take, drop, byte_at, length-take, set, ltb, bit_and,
  replicate, u8, get_or-set_self, get_or-set_ne, length-set,
}
use io_edge_hub_freertos.Common.{◌||◌, ◌==◌, if◌then◌else◌, if_both, ==→eq}
use io_edge_hub_freertos.Common.Bits.{bit_and_low}
use io_edge_hub_freertos.Fw.Udp.{
  fw_data_max, fw_v2_max, Msg, msg_bytes, Reply, Pool, fw_reply, fw_send_reply_cb, no_reply,
}

nothing : (bytes : List ℕ) → none ≡ some bytes → length bytes ≤ fw_v2_max
nothing bytes e = absurd (cc e)

room :
    (k : ℕ) (xs bytes : List ℕ)
    → k ≤ fw_v2_max
    → some (take k xs) ≡ some bytes
    → length bytes ≤ fw_v2_max
room k xs bytes h e =
    let same : take k xs ≡ bytes = cc e in omega (arith, length-take k xs, ap length same)

-- A message of any command but END fits the room of a message.
pub msg_bytes-le :
    (rx bytes : List ℕ) → byte_at rx 0 ≢ 3 → msg_bytes rx ≡ some bytes → length bytes ≤ fw_v2_max
unfolding msg_bytes
msg_bytes-le rx bytes other =
    let Fits : Option (List ℕ) → Type 0 = λ o. o ≡ some bytes → length bytes ≤ fw_v2_max in
    let len = length rx in
    if_both Fits (byte_at rx 0 == 1) _ _
      (λ _.
        if_both Fits (ltb len 5) _ _ (λ _. nothing bytes)
          (λ _.
            room (if ltb fw_v2_max (len - 1) then fw_v2_max else len - 1) (drop 1 rx) bytes
              (ground arith)))
      λ _.
        if_both Fits (byte_at rx 0 == 2) _ _
          (λ _.
            if_both Fits (ltb len 2 || ltb fw_data_max (len - 1)) _ _ (λ _. nothing bytes)
              (λ h. room (len - 1) (drop 1 rx) bytes (ground arith)))
          λ _.
            if_both Fits (byte_at rx 0 == 6) _ _
              (λ _.
                if_both Fits (ltb len 6 || ltb fw_v2_max (len - 1)) _ _ (λ _. nothing bytes)
                  (λ h. room (len - 1) (drop 1 rx) bytes (ground arith)))
              λ _.
                if_both Fits (byte_at rx 0 == 3) _ _ (λ end_cmd. absurd (other (==→eq _ _ end_cmd)))
                  (λ _. nothing bytes)

-- An END is not cut: its message can be longer than the room.
msg_bytes_end_long : msg_bytes (3 ∷ replicate 1407 0) ≡ some (replicate 1407 0)
unfolding msg_bytes
msg_bytes_end_long = refl

-- When the network's thread has no call left to make and the worker gives it two answers, whatever
-- the number of answers before, they are sent in order, each to the sender of its message.
pub fw_send_reply_cb-fw_reply :
    (m n : Msg) (a b : List ℕ) (p : Pool)
    → length p.replies ≡ 2
    → let p1 = fw_reply n b (fw_reply m a (record p { callbacks = [] })) in
      let (p2, first) = fw_send_reply_cb p1 in
      let (p3, second) = fw_send_reply_cb p2 in
      (first ≡ some (record { addr = m.addr; port = m.port; buf = a }))
      × (second ≡ some (record { addr = n.addr; port = n.port; buf = b }))
      × (p3.callbacks ≡ [])
unfolding fw_reply fw_send_reply_cb
fw_send_reply_cb-fw_reply m n a b p two =
    let i = p.reply_idx in
    let x = bit_and i 1 in
    let y = bit_and (u8 (i + 1)) 1 in
    let A : Reply = record { addr = m.addr; port = m.port; buf = a } in
    let C : Reply = record { addr = n.addr; port = n.port; buf = b } in
    let ex : x ≡ i % 2 = bit_and_low 1 i in
    let ey : y ≡ u8 (i + 1) % 2 = bit_and_low 1 (u8 (i + 1)) in
    let size = length-set p.replies x A in
    (
      ap some (
          get_or-set_ne (set p.replies x A) y x C no_reply (λ e. omega (arith, ex, ey))
          ∙ get_or-set_self p.replies x A no_reply (omega (arith, ex))),
      ap some (get_or-set_self (set p.replies x A) y C no_reply (omega (arith, ey, size))),
      refl,
    )
