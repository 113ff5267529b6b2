-- ===== src/Boot/Can/Wait/Safety.antt =====
-- What no sequence of polls can do, from the call of the wait to its return.
use io_edge_hub_freertos.Common.{
  ℕ, zero, suc, ◌+◌, ◌<◌, ◌≡◌, refl, arith, Bool, false, Option, none, some, not, ◌&&◌,
}
use io_edge_hub_freertos.Common.{List, [], ◌∷◌, length, u32, inl, inr}
use io_edge_hub_freertos.Common.{◌==◌, if◌then◌else◌, Bool-cases, if_both, elim_both, elim_list}
use io_edge_hub_freertos.Net.UdpCfg.{Version}
use io_edge_hub_freertos.Storage.IntFlash.{Hal, IsIntFlash}
use io_edge_hub_freertos.Boot.Can.Driver.{Rx, RxBox, can_recv}
use io_edge_hub_freertos.Boot.Can.{
  Poll, Boot, elapsed, can_put, send_trace, send_probe, drain, handle_frame,
}
use io_edge_hub_freertos.Boot.Can.Safety.{Safe, handle_frame-Safe}
use io_edge_hub_freertos.Boot.Can.Wait.{
  Probed, acked, deadline_passed, probing, no_session, leave, probe_step, probe_loop, touch,
  wait_step, wait_loop, serve, after_probe, boot_can_wait,
}

can_recv-ret : (rx : Rx) (box : Option RxBox) → (can_recv rx box).ret < 256
unfolding can_recv
can_recv-ret rx none = omega arith
can_recv-ret rx (some box) = ground arith

module _ {H : Type 0} (hal : Hal H) (cell : H → ℕ → ℕ) (part : IsIntFlash hal cell) (f0 : H) where
  abbrev Ok : Boot H → Type 0
  Ok b = Safe hal cell part f0 b

  not_installed : (b : Boot H) → Ok b → b.s.confirmed ≡ false → b.s.installed ≡ false
  not_installed b h e = elim (Bool-cases b.s.installed) [
    | inl i ↦ absurd (cc (e, (h.whole i).2))
    | inr n ↦ n
  ]

  module _ (key : List ℕ) (v : Version) where
    touch-Safe : (now : ℕ) (b : Boot H) → Ok b → Ok (touch hal key v now b)
    unfolding touch
    touch-Safe now b h = record { kept = h.kept; opened = h.opened; whole = h.whole }

    wait_step-Safe :
        (p : Poll) (b : Boot H) → b.s.installed ≡ false → Ok b → Ok (wait_step hal key v p b)
    unfolding wait_step
    wait_step-Safe p b new h =
        let r = can_recv b.rx p.box in
        let b1 = record b { rx = r } in
        let h1 : Ok b1 = record { kept = h.kept; opened = h.opened; whole = h.whole } in
        let h2 = handle_frame-Safe hal cell part f0 key v r b1 (can_recv-ret b.rx p.box) new h1 in
        let b2 = (handle_frame hal key v r b1).0 in
        if_both Ok (r.ret == 0) _ _ (λ e. h1)
          λ e.
            if_both Ok (handle_frame hal key v r b1).1 _ _ (λ e. touch-Safe p.after b2 h2)
              λ e. if_both Ok (r.id == 0x107) _ _ (λ e. touch-Safe p.after b2 h2) (λ e. h2)

    wait_loop-Safe : (fuel : ℕ) (b : Boot H) → Ok b → Ok (wait_loop hal key v fuel b).0
    unfolding wait_loop
    wait_loop-Safe zero b h = h
    wait_loop-Safe (suc fuel) b h =
        elim_both (λ (r : Boot H × Bool). Ok r.0) b.s.confirmed _ _ (λ e. h)
          λ e.
            elim_list (λ (r : Boot H × Bool). Ok r.0) b.polls _ _ (λ no. h)
              λ p ps some_polls.
                let b0 = record b { polls = ps } in
                let b' = wait_step hal key v p b0 in
                let h' : Ok b' =
                  wait_step-Safe p b0 (not_installed b h e)
                    (record { kept = h.kept; opened = h.opened; whole = h.whole }) in
                elim_both (λ (r : Boot H × Bool). Ok r.0)
                  (elapsed p.before b'.s.last_activity 15000) _ _ (λ e. h')
                  (λ e. wait_loop-Safe fuel b' h')

    leave-Safe : (b : Boot H) → Ok b → Ok (leave b)
    unfolding leave send_trace can_put
    leave-Safe b h =
        let h' : Ok (if b.s.confirmed then send_trace 4 b else b) =
          if_both Ok b.s.confirmed _ _
            (λ e. record { kept = h.kept; opened = h.opened; whole = h.whole }) (λ e. h) in
        record { kept = h'.kept; opened = h'.opened; whole = h'.whole }

    serve-Safe : (resumed : ℕ) (b : Boot H) → Ok b → Ok (serve hal key v resumed b).0
    unfolding serve send_trace can_put touch
    serve-Safe resumed b h =
        let b1 = send_trace 3 b in
        let (rx, polls) = drain b1.rx b1.polls in
        let b2 = touch hal key v resumed (record b1 { polls = polls; rx = rx }) in
        let h2 : Ok b2 = record { kept = h.kept; opened = h.opened; whole = h.whole } in
        let h3 = wait_loop-Safe (length b2.polls) b2 h2 in
        if_both (λ (r : Boot H × Bool). Ok r.0) (wait_loop hal key v (length b2.polls) b2).1 _ _
          (λ e. leave-Safe _ h3) (λ e. h3)

    probe_step-Safe :
        (forever : Bool) (deadline now next : ℕ) (b : Boot H)
        → Ok b
        → Ok (probe_step v forever deadline now next b).0
    unfolding probe_step send_probe can_put
    probe_step-Safe forever deadline now next b h =
        if_both (λ (r : Boot H × ℕ). Ok r.0) (elapsed now next 0) _ _
          (λ e. record { kept = h.kept; opened = h.opened; whole = h.whole }) (λ e. h)

    probe_loop-Safe :
        (forever : Bool) (deadline : ℕ) (ps : List Poll) (next : ℕ) (b : Boot H)
        → Ok b
        → Ok (probe_loop v forever deadline ps next b).0
    unfolding probe_loop
    probe_loop-Safe forever deadline [] next b h = record {
      kept = h.kept;
      opened = h.opened;
      whole = h.whole;
    }
    probe_loop-Safe forever deadline (p ∷ ps) next b h =
        let r = can_recv b.rx p.box in
        let (b1, next') = probe_step v forever deadline p.before next b in
        let h1 = probe_step-Safe forever deadline p.before next b h in
        elim_both (λ (r : Boot H × Probed). Ok r.0) (not forever && elapsed p.before deadline 0) _ _
          (λ e. record { kept = h.kept; opened = h.opened; whole = h.whole })
          λ e.
            elim_both (λ (r : Boot H × Probed). Ok r.0) (not (r.ret == 0) && (r.id == 0x107)) _ _
              (λ e. record { kept = h1.kept; opened = h1.opened; whole = h1.whole })
              (λ e.
                probe_loop-Safe forever deadline ps next' (record b1 { rx = r })
                  (record { kept = h1.kept; opened = h1.opened; whole = h1.whole }))

    after_probe-Safe :
        (resumed : ℕ) (b : Boot H)
        → Ok b
        → (probed : Probed) → Ok (after_probe hal key v resumed b probed).0
    unfolding after_probe send_trace can_put
    after_probe-Safe resumed b h acked = serve-Safe resumed b h
    after_probe-Safe resumed b h deadline_passed = record {
      kept = h.kept;
      opened = h.opened;
      whole = h.whole;
    }
    after_probe-Safe resumed b h probing = h

-- Whatever the polls give, and whether the wait returns with them or goes on: the boot loader's 64
-- KiB are as they were before the call; a session that is open has announced between 64 and
-- 0x70000 bytes and has not written more than that; and an image counts as installed only if as
-- many bytes were written as were announced, and the session has ended.
pub boot_can_wait-Safe :
    {H : Type 0} (hal : Hal H) (cell : H → ℕ → ℕ) (part : IsIntFlash hal cell) (key : List ℕ)
    (v : Version) (can_init_ok forever : Bool) (start resumed : ℕ) (b : Boot H)
    → Safe hal cell part b.flash (boot_can_wait hal key v can_init_ok forever start resumed b).0
unfolding boot_can_wait send_trace can_put
boot_can_wait-Safe {H} hal cell part key v can_init_ok forever start resumed b =
    let b1 = record b { s = no_session } in
    let b2 = send_trace 2 b1 in
    let h1 : Safe hal cell part b.flash b1 = record {
      kept = λ i p. refl;
      opened = λ on. absurd (cc on);
      whole = λ on. absurd (cc on);
    } in
    let h2 : Safe hal cell part b.flash b2 = record {
      kept = h1.kept;
      opened = h1.opened;
      whole = h1.whole;
    } in
    let (b3, probed) = probe_loop v forever (u32 (start + 500)) b2.polls 0 b2 in
    let h3 =
      probe_loop-Safe hal cell part b.flash key v forever (u32 (start + 500)) b2.polls 0 b2 h2 in
    if_both (λ (r : Boot H × Bool). Safe hal cell part b.flash r.0) (not can_init_ok) _ _ (λ e. h1)
      (λ e. after_probe-Safe hal cell part b.flash key v resumed b3 h3 probed)
