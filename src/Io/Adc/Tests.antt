-- ===== src/Io/Adc/Tests.antt =====
-- The conversion of concrete samples.
use io_edge_hub_freertos.Common.{◌≡◌, refl}
use io_edge_hub_freertos.Io.Adc.{ai_convert}

full_scale : ai_convert 0 4095 ≡ 2445
unfolding ai_convert
full_scale = refl
