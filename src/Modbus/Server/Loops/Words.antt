-- ===== src/Modbus/Server/Loops/Words.antt =====
-- The register-reading loop of FC03 and FC04.
use io_edge_hub_freertos.Common.{
  ℕ, zero, suc, ◌+◌, ◌*◌, ◌≤◌, ◌<◌, ◌≡◌, refl, arith, Option, none, some,
}
use io_edge_hub_freertos.Common.{List, [], ◌++◌, length, u16, ltb, Bool-cases, inl, inr}
use io_edge_hub_freertos.Common.{ltb→lt, ltb→le}
use io_edge_hub_freertos.Util.Bytes.{put_be16}
use io_edge_hub_freertos.Modbus.Server.Loops.{regs_loop}

-- The values from `addr` on, big end first.
abbrev pub be_values : (ℕ → ℕ) → ℕ → ℕ → List ℕ
be_values val zero addr = []
be_values val (suc n) addr = put_be16 (val addr) ++ be_values val n (addr + 1)

pub length-put_be16 : (v : ℕ) (rest : List ℕ) → length (put_be16 v ++ rest) ≡ 2 + length rest
unfolding put_be16
length-put_be16 v rest = omega arith

pub length-be_values : (val : ℕ → ℕ) (n addr : ℕ) → length (be_values val n addr) ≡ 2 * n
length-be_values val zero addr = refl
length-be_values val (suc n) addr = omega (
  arith,
  length-put_be16 (val addr) (be_values val n (addr + 1)),
  length-be_values val n (addr + 1),
)

module _ (rd : ℕ → Option ℕ) where
  -- Where every callback answers, the answers are the bytes in order.
  pub regs_loop_total :
      (val : ℕ → ℕ) (left addr : ℕ)
      → addr + left ≤ 65535
      → ((j : ℕ) → j < left → rd (addr + j) ≡ some (val (addr + j)))
      → regs_loop rd left addr ≡ some (be_values val left addr)
  unfolding regs_loop
  regs_loop_total val zero addr h answers = refl
  regs_loop_total val (suc left) addr h answers =
      let here : addr + 0 ≡ addr = omega arith in
      let e : rd addr ≡ some (val addr) = rw here at (answers 0 (omega arith)) in
      let q : u16 (addr + 1) ≡ addr + 1 = omega arith in
      let rest : regs_loop rd left (addr + 1) ≡ some (be_values val left (addr + 1)) =
        regs_loop_total val left (addr + 1) (omega arith) (λ j p.
          let k : addr + suc j ≡ addr + 1 + j = omega arith in
          rw k at (answers (suc j) (omega arith))) in
      rw (e, regs_loop) (rw (q, regs_loop) (rw (rest, regs_loop)))

  -- Where every address from a limit on is refused and the range goes past it, the loop fails.
  pub regs_loop-none :
      (limit left addr : ℕ)
      → limit < 65535
      → ((a : ℕ) → limit ≤ a → rd a ≡ none)
      → addr < 65536
      → limit < addr + left
      → 0 < left
      → regs_loop rd left addr ≡ none
  unfolding regs_loop
  regs_loop-none limit zero addr hl refuse ha past pos = absurd (omega arith)
  regs_loop-none limit (suc left) addr hl refuse ha past pos = go (rd addr) refl (λ below.
      regs_loop-none limit left (u16 (addr + 1)) hl refuse (omega arith) (omega arith)
        (omega arith))
    where
      go :
          (r : Option ℕ)
          → rd addr ≡ r
          → (addr < limit → regs_loop rd left (u16 (addr + 1)) ≡ none)
          → regs_loop rd (suc left) addr ≡ none
      go none e ih = rw (e, regs_loop)
      go (some v) e ih = elim (Bool-cases (ltb addr limit)) [
        | inl below ↦ rw (e, regs_loop) (rw (ih (ltb→lt addr limit below), regs_loop))
        | inr above ↦ absurd (cc (refuse addr (ltb→le addr limit above)))
      ]
