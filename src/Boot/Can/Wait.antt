-- ===== src/Boot/Can/Wait.antt =====
-- src/boot/boot_can.c: the probe window and the wait for a session to end.
pub mod Safety
pub mod Idle
use io_edge_hub_freertos.Common.{
  ℕ, zero, suc, ◌+◌, ◌^◌, Bool, true, false, not, ◌&&◌, ◌||◌, List, [], ◌∷◌, length, replicate, u32,
}
use io_edge_hub_freertos.Common.{◌==◌, if◌then◌else◌}
use io_edge_hub_freertos.Net.UdpCfg.{Version}
use io_edge_hub_freertos.Storage.IntFlash.{Hal}
use io_edge_hub_freertos.Boot.Can.Driver.{Rx, can_recv}
use io_edge_hub_freertos.Boot.Can.{
  Session, Poll, Boot, elapsed, send_trace, send_probe, drain, handle_frame,
}

-- How the probe window ends: by a frame 0x107, by its deadline, or not yet with the polls given.
pub data Probed : Type 0 where
  acked deadline_passed probing : Probed

abbrev pub no_session : Session
no_session = record {
  active = false;
  total = 0;
  written = 0;
  confirmed = false;
  installed = false;
  last_activity = 0;
  keybuf = replicate 32 0;
  key_mask = 0;
}

module _ {H : Type 0} where
  -- `now` is the time of the end of the wait.
  unfoldable pub leave : Boot H → Boot H
  unfolding send_trace
  leave b = send_trace 5 (if b.s.confirmed then send_trace 4 b else b)

  module _ (v : Version) (forever : Bool) (deadline : ℕ) where
    -- A round of the probe window up to the poll: a probe, when it is time for one.
    unfoldable pub probe_step : ℕ → ℕ → Boot H → Boot H × ℕ
    unfolding elapsed send_probe
    probe_step now next_probe b =
        if elapsed now next_probe 0 then (send_probe v b, u32 (now + 200)) else (b, next_probe)

    unfoldable pub probe_loop : List Poll → ℕ → Boot H → Boot H × Probed
    unfolding probe_step elapsed can_recv
    probe_loop [] next_probe b = (record b { polls = [] }, probing)
    probe_loop (p ∷ ps) next_probe b =
        let (b1, next) = probe_step p.before next_probe b in
        let r = can_recv b.rx p.box in
        elim (not forever && elapsed p.before deadline 0) [
          | true ↦ (record b { polls = p ∷ ps }, deadline_passed)
          | false ↦ elim (not (r.ret == 0) && (r.id == 0x107)) [
            | true ↦ (record b1 { polls = ps; rx = r }, acked)
            | false ↦ probe_loop ps next (record b1 { rx = r })
          ]
        ]

  module _ (hal : Hal H) (fw_keyhash : List ℕ) (v : Version) where
    unfoldable pub touch : ℕ → Boot H → Boot H
    touch now b = record b { s = record (b.s) { last_activity = now } }

    -- The poll of a round of the wait.
    unfoldable pub wait_step : Poll → Boot H → Boot H
    unfolding can_recv handle_frame touch
    wait_step p b =
        let r = can_recv b.rx p.box in
        let b1 = record b { rx = r } in
        let (b2, ours) = handle_frame hal fw_keyhash v r b1 in
        if r.ret == 0
        then b1
        else if ours
        then touch p.after b2
        else if r.id == 0x107
        then touch p.after b2
        else b2

    -- The loop, with fuel; the second part is whether it ended, by a session or by the time.
    unfoldable pub wait_loop : ℕ → Boot H → Boot H × Bool
    unfolding wait_step elapsed
    wait_loop zero b = (b, b.s.confirmed)
    wait_loop (suc fuel) b = elim b.s.confirmed [
      | true ↦ (b, true)
      | false ↦ elim b.polls [
        | [] ↦ (b, false)
        | p ∷ ps ↦
            let b' = wait_step p (record b { polls = ps }) in
            elim (elapsed p.before b'.s.last_activity 15000) [
              | true ↦ (b', true)
              | false ↦ wait_loop fuel b'
            ]
      ]
    ]

    -- The session after the acknowledgement at `resumed`, and whether it ended; a round takes a
    -- poll at least.
    unfoldable pub serve : ℕ → Boot H → Boot H × Bool
    unfolding wait_loop drain leave touch send_trace
    serve resumed b =
        let b1 = send_trace 3 b in
        let (rx, polls) = drain b1.rx b1.polls in
        let b2 = touch resumed (record b1 { polls = polls; rx = rx }) in
        let (b3, ended) = wait_loop (length b2.polls) b2 in
        if ended then (leave b3, true) else (b3, false)

    -- What follows the probe window.
    unfoldable pub after_probe : ℕ → Boot H → Probed → Boot H × Bool
    unfolding serve send_trace
    after_probe resumed b acked = serve resumed b
    after_probe resumed b deadline_passed = (send_trace 5 b, true)
    after_probe resumed b probing = (b, false)

    -- `start` and `resumed` are the clock before the probe window and before the wait. The second
    -- part is whether the function has returned with the polls given.
    unfoldable pub boot_can_wait : Bool → Bool → ℕ → ℕ → Boot H → Boot H × Bool
    unfolding probe_loop after_probe send_trace
    boot_can_wait can_init_ok forever start resumed b =
        let b1 = record b { s = no_session } in
        let b2 = send_trace 2 b1 in
        let (b3, probed) = probe_loop v forever (u32 (start + 500)) b2.polls 0 b2 in
        if not can_init_ok then (b1, true) else after_probe resumed b3 probed
