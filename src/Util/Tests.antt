-- ===== src/Util/Tests.antt =====
-- The byte order and the checksums on concrete bytes.
use io_edge_hub_freertos.Common.{ℕ, ◌≡◌, refl, List, [], ◌∷◌}
use io_edge_hub_freertos.Util.Bytes.{}
use io_edge_hub_freertos.Util.Crc.{crc16_modbus, crc32_ieee}

-- "123456789", the usual check value of each checksum
abbrev digits : List ℕ
digits = 0x31 ∷ 0x32 ∷ 0x33 ∷ 0x34 ∷ 0x35 ∷ 0x36 ∷ 0x37 ∷ 0x38 ∷ 0x39 ∷ []

check16 : crc16_modbus digits ≡ 0x4B37
unfolding crc16_modbus
check16 = refl

check32 : crc32_ieee digits ≡ 0xCBF43926
unfolding crc32_ieee
check32 = refl
