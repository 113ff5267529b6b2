-- ===== src/Io/Adc.antt =====
-- src/io/adc.c: from the 12 bits of a conversion to the unit of the register. A sample is not
-- negative; the sampling task and the converter are not modelled.
pub mod Laws
mod Tests
use io_edge_hub_freertos.Common.{ℕ, ◌*◌, ◌/◌, ltb, if◌then◌else◌, u16, u32}

-- `ai_coeff[]`; channels are below 4.
unfoldable pub ai_coeff : ℕ → ℕ
ai_coeff ch = if ltb ch 2 then 7414 else 3704

unfoldable pub ai_convert : ℕ → ℕ → ℕ
unfolding ai_coeff
ai_convert ch raw = u16 (u32 (ai_coeff ch * (raw * 3300 / 4096) / 10000))
