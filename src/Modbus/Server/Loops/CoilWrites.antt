-- ===== src/Modbus/Server/Loops/CoilWrites.antt =====
-- The coil-writing loop of FC15.
use io_edge_hub_freertos.Common.{ℕ, zero, suc, ◌+◌, ◌-◌, ◌%◌, ◌≤◌, ◌<◌, ◌≡◌, refl, ap, ◌∙◌}
use io_edge_hub_freertos.Common.{
  arith, Bool, true, false, not, ◌&&◌, ◌||◌, List, byte_at, u8, u16, bit_and, ◌>>◌,
}
use io_edge_hub_freertos.Common.{ltb, leb, ◌==◌, if◌then◌else◌, Bool-cases, inl, inr, some, lt→ltb}
use io_edge_hub_freertos.Common.{ltb→lt, ==→eq}
use io_edge_hub_freertos.Common.Bits.{bit_at, test_bit}
use io_edge_hub_freertos.Regs.{Regs, write_do_bit, coil_rd}
use io_edge_hub_freertos.Regs.Index.{do_num}
use io_edge_hub_freertos.Regs.Laws.{IsRegs}
use io_edge_hub_freertos.Regs.Coils.{
  coil_rd-write_do_bit, write_do_bit_accepts, write_do_bit-IsRegs,
}
use io_edge_hub_freertos.Modbus.Server.Loops.{coils_loop}

bit_at-shift : (n a : ℕ) → bit_at n (a >> 1) ≡ bit_at (n + 1) a
bit_at-shift n a = let e : n + 1 ≡ suc n = omega arith in rw e (unfold bit_at in refl)

test_lowest : (a : ℕ) → not (bit_and a 1 == 0) ≡ (bit_at 0 a == 1)
test_lowest a = test_bit 0 a

-- the byte that round `cntr` takes its state from
abbrev pub current : List ℕ → ℕ → ℕ → ℕ → ℕ
current d cntr temp ix = if cntr % 8 == 0 then byte_at d ix else temp

abbrev next_ix : ℕ → ℕ → ℕ
next_ix cntr ix = if cntr % 8 == 0 then u8 (ix + 1) else ix

module _ {S : Type 0} (d : List ℕ) (addr : ℕ) where
  abbrev written : ℕ → ℕ → ℕ → Regs S → Regs S × Bool
  written cntr temp ix r =
      write_do_bit r (u16 (addr + cntr)) (not (bit_and (current d cntr temp ix) 1 == 0))

  module _ (left cntr temp ix : ℕ) (r : Regs S) where
    coils_loop_done :
        (written cntr temp ix r).1 ≡ true
        → coils_loop d addr (suc left) cntr temp ix r
          ≡ coils_loop d addr left
              (cntr + 1)
              (current d cntr temp ix >> 1)
              (next_ix cntr ix)
              (written cntr temp ix r).0
    unfolding coils_loop
    coils_loop_done e = rw (e, coils_loop)

    coils_loop_failed :
        (written cntr temp ix r).1 ≡ false
        → coils_loop d addr (suc left) cntr temp ix r ≡ ((written cntr temp ix r).0, false)
    unfolding coils_loop
    coils_loop_failed e = rw (e, coils_loop)

  pub coils_loop-IsRegs :
      (left cntr temp ix : ℕ) (r : Regs S)
      → IsRegs r
      → IsRegs (coils_loop d addr left cntr temp ix r).0
  coils_loop-IsRegs zero cntr temp ix r v = unfold coils_loop in v
  coils_loop-IsRegs (suc left) cntr temp ix r v =
      let v' =
        write_do_bit-IsRegs r (u16 (addr + cntr)) (not (bit_and (current d cntr temp ix) 1 == 0))
          v in
      elim (Bool-cases (written cntr temp ix r).1) [
        | inl e ↦ rw (coils_loop_done left cntr temp ix r e) (
            coils_loop-IsRegs left (cntr + 1) (current d cntr temp ix >> 1) (next_ix cntr ix)
              (written cntr temp ix r).0 v')
        | inr e ↦ rw (coils_loop_failed left cntr temp ix r e) v'
      ]

  -- It fails exactly when the range goes past the coils.
  pub coils_loop_accepts :
      (left cntr temp ix : ℕ) (r : Regs S)
      → addr + cntr < 65536
      → left ≤ 2000
      → (coils_loop d addr left cntr temp ix r).1 ≡ (left == 0 || leb (addr + cntr + left) do_num)
  coils_loop_accepts zero cntr temp ix r h m = unfold coils_loop in refl
  coils_loop_accepts (suc left) cntr temp ix r h m =
      let one =
        write_do_bit_accepts r (u16 (addr + cntr))
          (not (bit_and (current d cntr temp ix) 1 == 0)) in
      elim (Bool-cases (written cntr temp ix r).1) [
        | inl e ↦ rw (coils_loop_done left cntr temp ix r e) (
            ground (
              arith,
              coils_loop_accepts left (cntr + 1) (current d cntr temp ix >> 1) (next_ix cntr ix)
                  (written cntr temp ix r).0 (ground (arith, one)) (omega arith),
              one,
            ))
        | inr e ↦ rw (coils_loop_failed left cntr temp ix r e) (ground (arith, one))
      ]

  -- Over coils of one data byte, each coil of the range reads its bit of the byte, counted from
  -- the round's own, and the others read as before.
  pub coils_loop-reads :
      (left cntr temp ix : ℕ) (r : Regs S) (j : ℕ)
      → IsRegs r
      → addr + cntr + left ≤ do_num
      → coil_rd (coils_loop d addr left cntr temp ix r).0 j ≡ (
          if leb (addr + cntr) j && ltb j (addr + cntr + left)
          then some (bit_at (j - (addr + cntr)) (current d cntr temp ix) == 1)
          else coil_rd r j)
  coils_loop-reads zero cntr temp ix r j v h = unfold coils_loop in ground arith
  coils_loop-reads (suc left) cntr temp ix r j v h =
      let q : u16 (addr + cntr) ≡ addr + cntr = omega arith in
      let bit = not (bit_and (current d cntr temp ix) 1 == 0) in
      let e : (written cntr temp ix r).1 ≡ true =
        write_do_bit_accepts r (u16 (addr + cntr)) bit
        ∙ lt→ltb (u16 (addr + cntr)) do_num (omega arith) in
      let v' = write_do_bit-IsRegs r (u16 (addr + cntr)) bit v in
      let one = (coil_rd-write_do_bit r (u16 (addr + cntr)) j bit v (omega arith)).0 in
      let rest =
        coils_loop-reads left (cntr + 1) (current d cntr temp ix >> 1) (next_ix cntr ix)
          (written cntr temp ix r).0 j v' (omega arith) in
      rw (coils_loop_done left cntr temp ix r e) (elim (Bool-cases (ltb (addr + cntr) j)) [
        | inl above ↦
            let p : j - (addr + (cntr + 1)) + 1 ≡ j - (addr + cntr) =
              omega (arith, ltb→lt (addr + cntr) j above) in
            let s =
              bit_at-shift (j - (addr + (cntr + 1))) (current d cntr temp ix)
              ∙ ap (λ n. bit_at n (current d cntr temp ix)) p in
            ground (arith, one, rest, s)
        | inr below ↦ elim (Bool-cases (j == addr + cntr)) [
          | inl same ↦
              let p : j - (addr + cntr) ≡ 0 = omega (arith, ==→eq j (addr + cntr) same) in
              ground (
                arith,
                one,
                rest,
                test_lowest (current d cntr temp ix),
                ap (λ n. bit_at n (current d cntr temp ix)) p,
              )
          | inr less ↦ ground (arith, one, rest)
        ]
      ])
