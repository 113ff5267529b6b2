-- ===== src/Modbus/Server/Loops/Writes.antt =====
-- The writing loops of FC15 and FC16: what the registers read when they end, and when they fail.
use io_edge_hub_freertos.Common.{ℕ, zero, suc, ◌+◌, ◌-◌, ◌*◌, ◌≤◌, ◌<◌, ◌≡◌, refl, ap, ◌∙◌}
use io_edge_hub_freertos.Common.{arith, Bool, true, false, ◌&&◌, ◌||◌, List, u16}
use io_edge_hub_freertos.Common.{
  ltb, leb, ◌==◌, if◌then◌else◌, Bool-cases, inl, inr, lt→ltb, ltb→lt, ==→eq,
}
use io_edge_hub_freertos.Util.Bytes.{get_be16, get_be16-lt}
use io_edge_hub_freertos.Regs.{Regs, Env, write_holding, get_holding_reg}
use io_edge_hub_freertos.Regs.Index.{holding_number, config_save_idx}
use io_edge_hub_freertos.Regs.Laws.{IsRegs, write_holding-IsRegs, write_holding_accepts}
use io_edge_hub_freertos.Regs.Laws.{get_holding_reg-write_holding}
use io_edge_hub_freertos.Modbus.Server.Loops.{hregs_loop}

module _ {S : Type 0} (env : Env S) (d : List ℕ) (addr : ℕ) where
  abbrev written : ℕ → ℕ → Regs S → Regs S × Bool
  written cntr i r = write_holding env r (u16 (addr + cntr)) (get_be16 d i)

  hregs_loop_done :
      (left cntr i : ℕ) (r : Regs S)
      → (written cntr i r).1 ≡ true
      → hregs_loop env d addr (suc left) cntr i r
        ≡ hregs_loop env d addr left (cntr + 1) (i + 2) (written cntr i r).0
  unfolding hregs_loop
  hregs_loop_done left cntr i r e = rw (e, hregs_loop)

  hregs_loop_failed :
      (left cntr i : ℕ) (r : Regs S)
      → (written cntr i r).1 ≡ false
      → hregs_loop env d addr (suc left) cntr i r ≡ ((written cntr i r).0, false)
  unfolding hregs_loop
  hregs_loop_failed left cntr i r e = rw (e, hregs_loop)

  -- Whatever it writes and wherever it stops, the loop keeps the arrays in their sizes and ranges.
  pub hregs_loop-IsRegs :
      (left cntr i : ℕ) (r : Regs S) → IsRegs r → IsRegs (hregs_loop env d addr left cntr i r).0
  hregs_loop-IsRegs zero cntr i r v = unfold hregs_loop in v
  hregs_loop-IsRegs (suc left) cntr i r v =
      let v' = write_holding-IsRegs env r (u16 (addr + cntr)) (get_be16 d i) (get_be16-lt d i) v in
      elim (Bool-cases (written cntr i r).1) [
        | inl e ↦
            rw (hregs_loop_done left cntr i r e)
              (hregs_loop-IsRegs left (cntr + 1) (i + 2) (written cntr i r).0 v')
        | inr e ↦ rw (hregs_loop_failed left cntr i r e) v'
      ]

  -- It fails exactly when the range goes past the registers.
  pub hregs_loop_accepts :
      (left cntr i : ℕ) (r : Regs S)
      → addr + cntr + left < 65536
      → (hregs_loop env d addr left cntr i r).1
        ≡ (left == 0 || leb (addr + cntr + left) holding_number)
  hregs_loop_accepts zero cntr i r h = unfold hregs_loop in refl
  hregs_loop_accepts (suc left) cntr i r h = elim (Bool-cases (written cntr i r).1) [
    | inl e ↦ rw (hregs_loop_done left cntr i r e) (
        ground (
          arith,
          hregs_loop_accepts left (cntr + 1) (i + 2) (written cntr i r).0 (omega arith),
          write_holding_accepts env r (u16 (addr + cntr)) (get_be16 d i),
        ))
    | inr e ↦
        rw (hregs_loop_failed left cntr i r e)
          (ground (arith, write_holding_accepts env r (u16 (addr + cntr)) (get_be16 d i)))
  ]

  -- Below the trigger registers every register of the range reads its value from the request.
  pub hregs_loop-reads :
      (left cntr i : ℕ) (r : Regs S) (j : ℕ)
      → IsRegs r
      → addr + cntr + left ≤ config_save_idx
      → get_holding_reg (hregs_loop env d addr left cntr i r).0 j ≡ (
          if leb (addr + cntr) j && ltb j (addr + cntr + left)
          then get_be16 d (i + 2 * (j - (addr + cntr)))
          else get_holding_reg r j)
  hregs_loop-reads zero cntr i r j v h = unfold hregs_loop in ground arith
  hregs_loop-reads (suc left) cntr i r j v h =
      let q : u16 (addr + cntr) ≡ addr + cntr = omega arith in
      let e : (written cntr i r).1 ≡ true =
        write_holding_accepts env r (u16 (addr + cntr)) (get_be16 d i)
        ∙ lt→ltb (u16 (addr + cntr)) holding_number (omega arith) in
      let v' = write_holding-IsRegs env r (u16 (addr + cntr)) (get_be16 d i) (get_be16-lt d i) v in
      let one =
        get_holding_reg-write_holding env r (u16 (addr + cntr)) (get_be16 d i) j v (omega arith) in
      let rest = hregs_loop-reads left (cntr + 1) (i + 2) (written cntr i r).0 j v' (omega arith) in
      rw (hregs_loop_done left cntr i r e) (elim (Bool-cases (ltb (addr + cntr) j)) [
        | inl above ↦
            let p : i + 2 + 2 * (j - (addr + (cntr + 1))) ≡ i + 2 * (j - (addr + cntr)) =
              omega (arith, ltb→lt (addr + cntr) j above) in
            ground (arith, one, rest, ap (get_be16 d) p)
        | inr below ↦ elim (Bool-cases (j == addr + cntr)) [
          | inl same ↦
              let p : i + 2 * (j - (addr + cntr)) ≡ i = omega (arith, ==→eq j (addr + cntr) same) in
              ground (arith, one, rest, ap (get_be16 d) p)
          | inr less ↦ ground (arith, one, rest)
        ]
      ])
