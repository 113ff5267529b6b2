-- ===== src/Modbus/Rtu/Timing.antt =====
-- The silence after which a frame has ended.
use io_edge_hub_freertos.Common.{ℕ, zero, suc, ◌+◌, ◌-◌, ◌*◌, ◌/◌, ◌≤◌, ◌<◌, ◌≡◌, arith}
use io_edge_hub_freertos.Modbus.Rtu.{t35_ms}
use native.Mathlib.Nat.{mul-div-le, lt-mul-div-succ, mul-le-mul_right, div-le_self}

bounds :
    (b us k : ℕ)
    → b * us ≤ 38500000 + b - 1
    → 38500000 + b - 1 < b * (us + 1)
    → 0 < b
    → us ≤ 1000 * (k + 1)
    → 1000 * k < us
    → (38500 ≤ (k + 1) * b) × (k * b < 38500)
bounds b us k high low pos up down =
    (omega (arith, mul-le-mul_right b up), omega (arith, mul-le-mul_right b down))

some_time : (b us : ℕ) → 38500000 + b - 1 < b * (us + 1) → 0 < us
some_time b zero h = absurd (omega arith)
some_time b (suc us) h = omega arith

-- From 1 to 19200 baud the time is the least number of milliseconds in which the line carries 3.5
-- characters of 11 bits: 38500 bits divided by the baud rate fit in it, and not in one less.
pub t35_ms_least :
    (baud : ℕ)
    → 0 < baud
    → baud ≤ 19200
    → (38500 ≤ t35_ms baud * baud) × ((t35_ms baud - 1) * baud < 38500)
unfolding t35_ms
t35_ms_least baud pos low = let one_less : k + 1 - 1 ≡ k = omega arith in rw (value, one_less) fits
  where
    us : ℕ
    us = (38500000 + baud - 1) / baud

    small : us ≤ 38500000 + baud - 1
    small = div-le_self (38500000 + baud - 1) baud

    high : baud * us ≤ 38500000 + baud - 1
    high = mul-div-le (38500000 + baud - 1) baud

    low_us : 38500000 + baud - 1 < baud * (us + 1)
    low_us = lt-mul-div-succ (38500000 + baud - 1) pos

    positive : 0 < us
    positive = some_time baud us low_us

    k : ℕ
    k = (us - 1) / 1000

    value : t35_ms baud ≡ k + 1
    value = ground (arith, small, positive)

    fits : (38500 ≤ (k + 1) * baud) × (k * baud < 38500)
    fits = bounds baud us k high low_us pos (omega arith) (omega (arith, positive))
