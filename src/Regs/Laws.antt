-- ===== src/Regs/Laws.antt =====
-- Writes of single registers: the invariant, and what each register reads afterwards.
use io_edge_hub_freertos.Common.{ℕ, ◌^◌, ◌<◌, ◌≡◌, arith, Bool, true, false}
use io_edge_hub_freertos.Common.{◌||◌, ◌&&◌, not, List, length, get_or, set, length-set, AllBelow}
use io_edge_hub_freertos.Common.{AllBelow-set, get_or-set_self, get_or-set_ne, ltb, ◌==◌}
use io_edge_hub_freertos.Common.{if◌then◌else◌}
use io_edge_hub_freertos.Regs.{Env, Regs, poke, get_holding_reg}
use io_edge_hub_freertos.Regs.{write_effect, write_holding}
use io_edge_hub_freertos.Regs.Index.{config_save_idx, reboot_idx, holding_number}

-- The arrays have their sizes and hold 16-bit values, and the clock has 32 digits.
pub record IsRegs {S : Type 0} (r : Regs S) : Type 0 where
  pub holding_size : length r.holding ≡ 18
  pub holding_words : AllBelow (2 ^ 16) r.holding
  pub input_size : length r.input ≡ 6
  pub input_words : AllBelow (2 ^ 16) r.input
  pub now_fits : r.now < 2 ^ 32

get_or_written :
    (xs : List ℕ) (clear : Bool) (a v j : ℕ)
    → a < length xs
    → get_or (if clear then set (set xs a v) a 0 else set xs a v) j 0
      ≡ (if j == a then (if clear then 0 else v) else get_or xs j 0)
get_or_written xs true a v j h = ground (
  arith,
  length-set xs a v,
  get_or-set_self (set xs a v) a 0 0,
  get_or-set_ne (set xs a v) a j 0 0,
  get_or-set_ne xs a j v 0,
)
get_or_written xs false a v j h = ground (arith, get_or-set_self xs a v 0, get_or-set_ne xs a j v 0)

module _ {S : Type 0} (env : Env S) where
  abbrev is_trigger : ℕ → Bool
  is_trigger addr = addr == config_save_idx || addr == reboot_idx

  -- The effects touch the register array only to clear the two trigger registers.
  holding-write_effect :
      (r : Regs S) (addr reg : ℕ)
      → (write_effect env r addr reg).holding
        ≡ (if is_trigger addr then set r.holding addr 0 else r.holding)
  unfolding write_effect
  holding-write_effect r addr reg = ground arith

  rest-write_effect :
      (r : Regs S) (addr reg : ℕ)
      → r.now < 2 ^ 32
      → ((write_effect env r addr reg).input ≡ r.input)
        × ((write_effect env r addr reg).now < 2 ^ 32)
  unfolding write_effect
  rest-write_effect r addr reg h = ground arith

  write_effect-IsRegs :
      (r : Regs S) (addr reg : ℕ) → IsRegs r → IsRegs (write_effect env r addr reg)
  write_effect-IsRegs r addr reg v = ground (
    arith,
    holding-write_effect r addr reg,
    rest-write_effect r addr reg v.now_fits,
    length-set r.holding addr 0,
    AllBelow-set (2 ^ 16) r.holding addr 0,
  )

  pub poke-IsRegs : (r : Regs S) (addr reg : ℕ) → reg < 2 ^ 16 → IsRegs r → IsRegs (poke r addr reg)
  poke-IsRegs r addr reg h v =
      ground (arith, length-set r.holding addr reg, AllBelow-set (2 ^ 16) r.holding addr reg)

  -- Every write of a 16-bit value to a register, whatever its effects and also out of range,
  -- keeps the arrays in their sizes and ranges.
  pub write_holding-IsRegs :
      (r : Regs S) (addr reg : ℕ)
      → reg < 2 ^ 16
      → IsRegs r
      → IsRegs (write_holding env r addr reg).0
  unfolding write_holding
  write_holding-IsRegs r addr reg h v =
      ground (arith, write_effect-IsRegs (poke r addr reg) addr reg, poke-IsRegs r addr reg h v)

  -- What every register reads after a write to `addr`, one of the 18, of arrays in their sizes:
  -- the others are as before, and `addr` reads the value written, except that a trigger register
  -- that the write changed is back at 0.
  pub get_holding_reg-write_holding :
      (r : Regs S) (addr reg j : ℕ)
      → IsRegs r
      → addr < holding_number
      → get_holding_reg (write_holding env r addr reg).0 j ≡ (
          if j == addr
          then if (addr == config_save_idx || addr == reboot_idx)
              && not (get_holding_reg r addr == reg)
            then 0
            else reg
          else get_holding_reg r j)
  unfolding get_holding_reg write_holding
  get_holding_reg-write_holding r addr reg j v h = ground (
    arith,
    holding-write_effect (poke r addr reg) addr reg,
    get_or_written r.holding (is_trigger addr) addr reg j (omega (arith, v.holding_size)),
  )

  pub write_holding_accepts :
      (r : Regs S) (addr reg : ℕ) → (write_holding env r addr reg).1 ≡ ltb addr holding_number
  unfolding write_holding
  write_holding_accepts r addr reg = ground arith
