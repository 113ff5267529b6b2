-- ===== src/Boot/Can/Wait/Idle.antt =====
-- The wait ends by itself when the host goes silent.
use mathlib.Core.Path.{subst}
use io_edge_hub_freertos.Common.{
  ℕ, zero, suc, ◌<◌, ◌≡◌, refl, sym, ap, ◌∙◌, arith, Bool, true, false, none,
}
use io_edge_hub_freertos.Common.{List, [], ◌∷◌, ◌++◌, length}
use io_edge_hub_freertos.Common.{
  ◌==◌, if_true, ap₂, Option, elim_both, elim_list, elim_true, elim_false,
}
use io_edge_hub_freertos.Net.UdpCfg.{Version}
use io_edge_hub_freertos.Storage.IntFlash.{Hal}
use io_edge_hub_freertos.Boot.Can.Driver.{RxBox, can_recv}
use io_edge_hub_freertos.Boot.Can.{Poll, Boot, elapsed}
use io_edge_hub_freertos.Boot.Can.Wait.{wait_step, wait_loop}

-- Polls that find nothing, with a clock that has not come 15 seconds past `last`.
abbrev pub Quiet : ℕ → List Poll → Type 0
Quiet last [] = Unit {0}
Quiet last (p ∷ ps) = (p.box ≡ none) × (elapsed p.before last 15000 ≡ false) × Quiet last ps

module _ {H : Type 0} (hal : Hal H) (key : List ℕ) (v : Version) where
  quiet_step :
      (p : Poll) (b : Boot H)
      → p.box ≡ none
      → wait_step hal key v p b ≡ record b { rx = record (b.rx) { ret = 0 } }
  unfolding wait_step can_recv
  quiet_step p b e =
      if_true ((can_recv b.rx p.box).ret == 0) _ _
        (ap (λ (m : Option RxBox). (can_recv b.rx m).ret == 0) e)
      ∙ ap (λ (m : Option RxBox). record b { rx = can_recv b.rx m }) e

  -- What the loop does at a poll.
  abbrev at_poll : ℕ → Boot H → Poll → List Poll → Boot H × Bool
  at_poll fuel b p ps =
      let b' = wait_step hal key v p (record b { polls = ps }) in
      elim (elapsed p.before b'.s.last_activity 15000) [
        | true ↦ (b', true)
        | false ↦ wait_loop hal key v fuel b'
      ]

  wait_loop_next :
      (fuel : ℕ) (b : Boot H) (p : Poll) (ps : List Poll)
      → b.s.confirmed ≡ false
      → b.polls ≡ p ∷ ps
      → wait_loop hal key v (suc fuel) b ≡ at_poll fuel b p ps
  unfolding wait_loop
  wait_loop_next fuel b p ps go e =
      elim_both (λ (r : Boot H × Bool). r ≡ at_poll fuel b p ps) b.s.confirmed _ _
        (λ t. absurd (cc (t, go)))
        λ _.
          elim_list (λ (r : Boot H × Bool). r ≡ at_poll fuel b p ps) b.polls (b, false)
            (at_poll fuel b) (λ no. absurd (cc (no, e)))
            (λ q qs some_polls.
              let same : Path (List Poll) (q ∷ qs) (p ∷ ps) = sym some_polls ∙ e in
              let head : q ≡ p = cc same in
              let tail : qs ≡ ps = cc same in ap₂ (at_poll fuel b) head tail)

  -- A session that is open or not but has not ended, and a controller that finds no more frames:
  -- the wait goes on while less than 15 seconds have passed since the last activity, and ends with
  -- the first poll after them, with the session and the flash as they were.
  pub wait_loop-Quiet :
      (ps : List Poll) (p : Poll) (rest : List Poll) (fuel : ℕ) (b : Boot H)
      → b.s.confirmed ≡ false
      → b.polls ≡ ps ++ p ∷ rest
      → length ps < fuel
      → Quiet b.s.last_activity ps
      → p.box ≡ none
      → elapsed p.before b.s.last_activity 15000 ≡ true
      → let r = wait_loop hal key v fuel b in
        (r.1 ≡ true) × (r.0.s ≡ b.s) × (r.0.flash ≡ b.flash) × (r.0.polls ≡ rest)
  wait_loop-Quiet ps p rest zero b go e f q quiet late = absurd (omega arith)
  wait_loop-Quiet [] p rest (suc fuel) b go e f q quiet late =
      let c : Boot H = record b { polls = rest; rx = record (b.rx) { ret = 0 } } in
      subst
        (λ (r : Boot H × Bool).
          (r.1 ≡ true) × (r.0.s ≡ b.s) × (r.0.flash ≡ b.flash) × (r.0.polls ≡ rest))
        (sym (
          wait_loop_next fuel b p rest go e
          ∙ ap
              (λ (d : Boot H). elim (elapsed p.before d.s.last_activity 15000) [
                | true ↦ (d, true)
                | false ↦ wait_loop hal key v fuel d
              ])
              (quiet_step p (record b { polls = rest }) quiet)
          ∙ elim_true (elapsed p.before b.s.last_activity 15000) (c, true) _ late))
        (refl, refl, refl, refl)
  wait_loop-Quiet (x ∷ ps) p rest (suc fuel) b go e f q quiet late =
      let c : Boot H = record b { polls = ps ++ p ∷ rest; rx = record (b.rx) { ret = 0 } } in
      subst
        (λ (r : Boot H × Bool).
          (r.1 ≡ true) × (r.0.s ≡ b.s) × (r.0.flash ≡ b.flash) × (r.0.polls ≡ rest))
        (sym (
          wait_loop_next fuel b x (ps ++ p ∷ rest) go e
          ∙ ap
              (λ (d : Boot H). elim (elapsed x.before d.s.last_activity 15000) [
                | true ↦ (d, true)
                | false ↦ wait_loop hal key v fuel d
              ])
              (quiet_step x (record b { polls = ps ++ p ∷ rest }) q.0)
          ∙ elim_false (elapsed x.before b.s.last_activity 15000) (c, true) _ q.1))
        (wait_loop-Quiet ps p rest fuel c go refl (omega arith) q.2 quiet late)
