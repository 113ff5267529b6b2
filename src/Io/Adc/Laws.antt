-- ===== src/Io/Adc/Laws.antt =====
-- How exact the conversion is.
use io_edge_hub_freertos.Common.{ℕ, ◌+◌, ◌*◌, ◌≤◌, ◌<◌, arith, ltb}
use io_edge_hub_freertos.Common.{Bool-cases, inl, inr}
use io_edge_hub_freertos.Io.Adc.{ai_coeff, ai_convert}

-- For every sample of 12 bits, the two truncating divisions lose less than two units: the exact
-- value, the sample times 3300 mV times the channel's coefficient over 4096 times 10000, is at
-- least the result and less than the result plus two.
pub ai_convert_exact :
    (ch raw : ℕ)
    → raw < 4096
    → (ai_convert ch raw * 40960000 ≤ raw * 3300 * ai_coeff ch)
      × (raw * 3300 * ai_coeff ch < (ai_convert ch raw + 2) * 40960000)
unfolding ai_convert
ai_convert_exact ch raw h = elim (Bool-cases (ltb ch 2)) [
  | inl e ↦ rw e (omega arith, omega arith)
  | inr e ↦ rw e (omega arith, omega arith)
]

-- Of two samples of 12 bits the larger never gives a smaller value.
ai_convert_mono :
    (ch raw more : ℕ) → raw ≤ more → more < 4096 → ai_convert ch raw ≤ ai_convert ch more
unfolding ai_convert
ai_convert_mono ch raw more h k = elim (Bool-cases (ltb ch 2)) [
  | inl e ↦ rw e (omega arith)
  | inr e ↦ rw e (omega arith)
]
