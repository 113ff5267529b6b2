-- ===== src/Regs/Coils.antt =====
-- The coils are the low eight digits of the DO register.
use io_edge_hub_freertos.Common.{ℕ, ◌+◌, ◌-◌, ◌^◌, ◌<◌, ◌≡◌, refl, arith}
use io_edge_hub_freertos.Common.{Bool, true, false, ◌&&◌, get_or, u16}
use io_edge_hub_freertos.Common.{bit_and, bit_or, ltb, ◌==◌, if◌then◌else◌, some, ◌∷◌}
use io_edge_hub_freertos.Common.{get_or-set_self, get_or-set_ne, length-set, AllBelow-set}
use io_edge_hub_freertos.Common.Bits.{bit_at, bit_at-lt, bit_at-bit_or, bit_at-bit_and, bit_and_low}
use io_edge_hub_freertos.Common.Bits.{holds_below, holds_below-lt, test_bit}
use io_edge_hub_freertos.Regs.{Regs, coil_rd, write_bit, write_do_bit, set_do}
use io_edge_hub_freertos.Regs.Index.{do_idx, do_num}
use io_edge_hub_freertos.Regs.Laws.{IsRegs}

masks_hold : ℕ → ℕ → Bool
masks_hold j b =
    bit_at j (2 ^ b) == (if j == b then 1 else 0)
    && (bit_at j (2 ^ 32 - 1 - 2 ^ b) == (if j == b then 0 else 1))
    && bit_at j 0xFF == 1
    && bit_at j 0xFFFF == 1

masks_table : holds_below 8 (λ b. holds_below 8 (λ j. masks_hold j b)) ≡ true
unfolding holds_below masks_hold bit_at
masks_table = refl

masks :
    (j b : ℕ)
    → j < 8
    → b < 8
    → (bit_at j (2 ^ b) ≡ (if j == b then 1 else 0))
      × (bit_at j (2 ^ 32 - 1 - 2 ^ b) ≡ (if j == b then 0 else 1))
      × (bit_at j 0xFF ≡ 1)
      × (bit_at j 0xFFFF ≡ 1)
unfolding masks_hold
masks j b hj hb = ground (
  arith,
  holds_below-lt 8 (λ (k : ℕ). masks_hold k b) j hj
      (holds_below-lt 8 (λ (c : ℕ). holds_below 8 (λ k. masks_hold k c)) b hb masks_table),
)

-- The digits of the value that `io_write_do_bit` stores.
stored_bit :
    (v b j : ℕ) (state : Bool)
    → b < 8
    → j < 8
    → bit_at j (bit_and (write_bit v b state) 0xFF)
      ≡ (if j == b then (if state then 1 else 0) else bit_at j v)
unfolding write_bit
stored_bit v b j true hb hj = ground (
  arith,
  masks j b hj hb,
  bit_at-bit_and j (u16 (bit_or v (2 ^ b))) 0xFF,
  bit_and_low 16 (bit_or v (2 ^ b)),
  bit_at-bit_and j (bit_or v (2 ^ b)) 0xFFFF,
  bit_at-bit_or j v (2 ^ b),
  bit_at-lt j v,
)
stored_bit v b j false hb hj = ground (
  arith,
  masks j b hj hb,
  bit_at-bit_and j (u16 (bit_and v (2 ^ 32 - 1 - 2 ^ b))) 0xFF,
  bit_and_low 16 (bit_and v (2 ^ 32 - 1 - 2 ^ b)),
  bit_at-bit_and j (bit_and v (2 ^ 32 - 1 - 2 ^ b)) 0xFFFF,
  bit_at-bit_and j v (2 ^ 32 - 1 - 2 ^ b),
  bit_at-lt j v,
)

module _ {S : Type 0} where
  -- After one of the eight coils is written, every coil reads as before but the one that was
  -- written, which reads its new state; a register other than DO is unchanged; and the value put
  -- out is the register's.
  pub coil_rd-write_do_bit :
      (r : Regs S) (b j : ℕ) (state : Bool)
      → IsRegs r
      → b < do_num
      → (coil_rd (write_do_bit r b state).0 j ≡ (if j == b then some state else coil_rd r j))
        × (get_or (write_do_bit r b state).0.holding (j + 1) 0 ≡ get_or r.holding (j + 1) 0)
        × ((write_do_bit r b state).0.events
            ≡ set_do (get_or (write_do_bit r b state).0.holding do_idx 0) ∷ r.events)
  unfolding coil_rd write_do_bit
  coil_rd-write_do_bit r b j state v h = (
    ground (
      arith,
      stored_bit (get_or r.holding do_idx 0) b j state h,
      test_bit j (get_or r.holding do_idx 0),
      test_bit j (bit_and (write_bit (get_or r.holding do_idx 0) b state) 0xFF),
      get_or-set_self r.holding do_idx
          (bit_and (write_bit (get_or r.holding do_idx 0) b state) 0xFF) 0,
    ),
    ground (
      arith,
      get_or-set_ne r.holding do_idx (j + 1)
          (bit_and (write_bit (get_or r.holding do_idx 0) b state) 0xFF) 0,
    ),
    ground (
      arith,
      get_or-set_self r.holding do_idx
          (bit_and (write_bit (get_or r.holding do_idx 0) b state) 0xFF) 0,
    ),
  )

  pub write_do_bit_accepts :
      (r : Regs S) (b : ℕ) (state : Bool) → (write_do_bit r b state).1 ≡ ltb b do_num
  unfolding write_do_bit
  write_do_bit_accepts r b state = ground arith

  pub write_do_bit-IsRegs :
      (r : Regs S) (b : ℕ) (state : Bool) → IsRegs r → IsRegs (write_do_bit r b state).0
  unfolding write_do_bit
  write_do_bit-IsRegs r b state v = ground (
    arith,
    bit_and_low 8 (write_bit (get_or r.holding do_idx 0) b state),
    length-set r.holding do_idx (bit_and (write_bit (get_or r.holding do_idx 0) b state) 0xFF),
    AllBelow-set (2 ^ 16) r.holding do_idx
        (bit_and (write_bit (get_or r.holding do_idx 0) b state) 0xFF),
  )
