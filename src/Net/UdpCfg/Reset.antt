-- ===== src/Net/UdpCfg/Reset.antt =====
-- The factory reset in two steps, and the restarts: what a sequence of commands can lead to.
use io_edge_hub_freertos.Common.{
  ℕ, ◌+◌, ◌-◌, ◌^◌, ◌≤◌, ◌<◌, ◌≡◌, refl, ap, ap₂, ◌∙◌, arith, inl, inr,
}
use io_edge_hub_freertos.Common.{
  true, false, not, ◌&&◌, ◌||◌, List, [], ◌∷◌, u32, ltb, ◌==◌, if◌then◌else◌, if_true, if_false,
  Bool-cases,
}
use io_edge_hub_freertos.Regs.{Env}
use io_edge_hub_freertos.Net.UdpCfg.{
  Version, Udp, reply_ok, udp_cfg_reset_pending, udp_cfg_reboot_pending, udp_app_cmd,
}

-- A command at a time of the clock.
pub record Command : Type 0 where
  pub now : ℕ
  pub cmd : ℕ
  pub bytes : List ℕ
  pub cap : ℕ

-- No command of the list is one of those two.
abbrev pub Without : ℕ → ℕ → List Command → Type 0
Without a b [] = Unit {0}
Without a b (c ∷ cs) = ((c.cmd == a) ≡ false) × ((c.cmd == b) ≡ false) × Without a b cs

-- A command of the factory reset.
abbrev pub reset_at : ℕ → List ℕ → ℕ → Command
reset_at now bytes cap = record { now = now; cmd = 0x19; bytes = bytes; cap = cap }

module _ {S : Type 0} (env : Env S) (ver : Version) where
  -- The state with its configuration erased, and the device to restart.
  abbrev pub erased : Udp S → Udp S
  erased u = record u {
    regs = record (u.regs) { store = env.cfg_erase_all u.regs.store };
    confirmed = false;
    reset_reboot_pending = true;
  }

  abbrev pub after : Udp S → Command → Udp S × List ℕ
  after u c = udp_app_cmd env ver u c.now c.cmd c.bytes c.cap

  -- Commands one after the other, from a state to a state.
  pub data Run : Udp S → List Command → Udp S → Type 0 where
    stop : {u : Udp S} → Run u [] u
    step :
        {u v : Udp S} {c : Command} {cs : List Command} → Run (after u c).0 cs v → Run u (c ∷ cs) v

  other_keeps :
      (u : Udp S) (c : Command)
      → (c.cmd == 0x19) ≡ false
      → ((after u c).0.pending_ms ≡ u.pending_ms)
        × ((after u c).0.confirmed ≡ u.confirmed)
        × ((after u c).0.reset_reboot_pending ≡ u.reset_reboot_pending)
  unfolding udp_app_cmd
  other_keeps u c other = (ground arith, ground arith, ground arith)

  reset_state_unchanged :
      (u v : Udp S) (cs : List Command)
      → Run u cs v
      → Without 0x19 0x19 cs
      → (v.pending_ms ≡ u.pending_ms)
        × (v.confirmed ≡ u.confirmed)
        × (v.reset_reboot_pending ≡ u.reset_reboot_pending)
  reset_state_unchanged u v cs stop w = (refl, refl, refl)
  reset_state_unchanged u v cs (step {c = c} {cs = ds} rest) w =
      let (p, k, r) = reset_state_unchanged (after u c).0 v ds rest w.2 in
      let (p1, k1, r1) = other_keeps u c w.0 in (p ∙ p1, k ∙ k1, r ∙ r1)

  answered : (cap ok : ℕ) → 2 ≤ cap → reply_ok cap 0x19 ok ≡ 0x19 ∷ ok ∷ []
  unfolding reply_ok
  answered cap ok room = if_false (ltb cap 2) _ _ (ground arith)

  factory_reset_lem :
      (u : Udp S) (now : ℕ) (bytes : List ℕ) (cap : ℕ)
      → u.confirmed ≡ false
      → 2 ≤ cap
      → after u (reset_at now bytes cap) ≡ (
          if ltb 5000 (u32 (now + 2 ^ 32 - u.pending_ms))
          then (record u { pending_ms = now }, 0x19 ∷ 0 ∷ [])
          else (erased u, 0x19 ∷ 1 ∷ []))
  unfolding udp_app_cmd
  factory_reset_lem u now bytes cap h room =
      let late = ltb 5000 (u32 (now + 2 ^ 32 - u.pending_ms)) in
      let test : (not u.confirmed && late) ≡ late = ap (λ t. not t && late) h in
      ap
        (λ t.
          if t
          then (record u { pending_ms = now }, reply_ok cap 0x19 0)
          else (erased u, reply_ok cap 0x19 1))
        test
      ∙ ap₂ (λ x y. if late then (record u { pending_ms = now }, x) else (erased u, y))
          (answered cap 0 room) (answered cap 1 room)

  -- A first UDP_CMD_FACTORY_RESET, more than 5000 ms after the time that is kept, only keeps its own
  -- time. A second, after any other commands, erases the configuration and asks for the restart
  -- exactly when it comes at most 5000 ms after the first, where the clock has 32 bits and may wrap
  -- around; otherwise it counts as a first again.
  pub factory_reset_twice :
      (u v : Udp S) (now later : ℕ) (b0 b1 : List ℕ) (cap : ℕ) (cs : List Command)
      → u.confirmed ≡ false
      → 2 ≤ cap
      → 5000 < u32 (now + 2 ^ 32 - u.pending_ms)
      → Run (after u (reset_at now b0 cap)).0 cs v
      → Without 0x19 0x19 cs
      → (after u (reset_at now b0 cap) ≡ (record u { pending_ms = now }, 0x19 ∷ 0 ∷ []))
        × (after v (reset_at later b1 cap) ≡ (
            if ltb 5000 (u32 (later + 2 ^ 32 - now))
            then (record v { pending_ms = later }, 0x19 ∷ 0 ∷ [])
            else (erased v, 0x19 ∷ 1 ∷ [])))
  factory_reset_twice u v now later b0 b1 cap cs h room gap run w =
      let first : after u (reset_at now b0 cap) ≡ (record u { pending_ms = now }, 0x19 ∷ 0 ∷ []) =
        factory_reset_lem u now b0 cap h room
        ∙ if_true (ltb 5000 (u32 (now + 2 ^ 32 - u.pending_ms))) _ _ (ground arith) in
      let (pending, confirmed, flag) =
        reset_state_unchanged (after u (reset_at now b0 cap)).0 v cs run w in
      let kept : v.pending_ms ≡ now = pending ∙ ap (λ t. t.0.pending_ms) first in
      let open_again : v.confirmed ≡ false = confirmed ∙ (ap (λ t. t.0.confirmed) first ∙ h) in
      (
        first,
        factory_reset_lem v later b1 cap open_again room
            ∙ ap
                (λ p.
                  if ltb 5000 (u32 (later + 2 ^ 32 - p))
                  then (record v { pending_ms = later }, 0x19 ∷ 0 ∷ [])
                  else (erased v, 0x19 ∷ 1 ∷ []))
                kept,
      )

  other_reboot :
      (u : Udp S) (c : Command)
      → (c.cmd == 0x05) ≡ false
      → (c.cmd == 0x19) ≡ false
      → udp_cfg_reboot_pending (after u c).0 ≡ udp_cfg_reboot_pending u
  unfolding udp_app_cmd udp_cfg_reboot_pending
  other_reboot u c a b = ground arith

  no_new_restart :
      (u v : Udp S) (cs : List Command)
      → Run u cs v
      → Without 0x05 0x19 cs
      → udp_cfg_reboot_pending v ≡ udp_cfg_reboot_pending u
  no_new_restart u v cs stop w = refl
  no_new_restart u v cs (step {c = c} {cs = ds} rest) w =
      no_new_restart (after u c).0 v ds rest w.2 ∙ other_reboot u c w.0 w.1

  -- From the state after power on, no sequence of commands without UDP_CMD_REBOOT and
  -- UDP_CMD_FACTORY_RESET asks for a restart.
  pub udp_cfg_reboot_pending-Run :
      (u v : Udp S) (cs : List Command)
      → Run (udp_cfg_reset_pending u) cs v
      → Without 0x05 0x19 cs
      → udp_cfg_reboot_pending v ≡ false
  unfolding udp_cfg_reset_pending udp_cfg_reboot_pending
  udp_cfg_reboot_pending-Run u v cs run w = no_new_restart (udp_cfg_reset_pending u) v cs run w

  reset_stays :
      (u : Udp S) (c : Command)
      → u.reset_reboot_pending ≡ true
      → (after u c).0.reset_reboot_pending ≡ true
  unfolding udp_app_cmd
  reset_stays u c h = ground arith

  reset_flag_stays :
      (u v : Udp S) (cs : List Command)
      → Run u cs v
      → u.reset_reboot_pending ≡ true
      → v.reset_reboot_pending ≡ true
  reset_flag_stays u v cs stop h = h
  reset_flag_stays u v cs (step {c = c} {cs = ds} rest) h =
      reset_flag_stays (after u c).0 v ds rest (reset_stays u c h)

  -- Whatever came before, two commands UDP_CMD_FACTORY_RESET at most 5000 ms apart, with any other
  -- commands between them, end with a restart asked for.
  pub factory_reset_in_time :
      (u v : Udp S) (now later : ℕ) (b0 b1 : List ℕ) (cap : ℕ) (cs : List Command)
      → u.confirmed ≡ false
      → 2 ≤ cap
      → u32 (later + 2 ^ 32 - now) ≤ 5000
      → Run (after u (reset_at now b0 cap)).0 cs v
      → Without 0x19 0x19 cs
      → udp_cfg_reboot_pending (after v (reset_at later b1 cap)).0 ≡ true
  unfolding udp_cfg_reboot_pending
  factory_reset_in_time u v now later b0 b1 cap cs h room near run w =
      elim (Bool-cases (ltb 5000 (u32 (now + 2 ^ 32 - u.pending_ms)))) [
        | inl first ↦
            let twice =
              factory_reset_twice u v now later b0 b1 cap cs h room (ground arith) run w in
            let second =
              twice.1 ∙ if_false (ltb 5000 (u32 (later + 2 ^ 32 - now))) _ _ (ground arith) in
            ap (λ t. t.0.reset_reboot_pending || t.0.reboot_reboot_pending) second
        | inr at_once ↦
            let done =
              factory_reset_lem u now b0 cap h room
              ∙ if_false (ltb 5000 (u32 (now + 2 ^ 32 - u.pending_ms))) _ _ at_once in
            let flag =
              reset_flag_stays (after u (reset_at now b0 cap)).0 v cs run
                (ap (λ t. t.0.reset_reboot_pending) done) in
            ap (λ t. t || (after v (reset_at later b1 cap)).0.reboot_reboot_pending)
              (reset_stays v (reset_at later b1 cap) flag)
      ]
