-- ===== src/Util/Crc.antt =====
-- src/util/io_crc.c: the two reflected checksums, bit by bit.
pub mod Laws
use io_edge_hub_freertos.Common.{ℕ, zero, suc, ◌<◌, ◌≡◌, bit_and, bit_xor, List, [], ◌∷◌, ◌++◌}
use io_edge_hub_freertos.Common.{◌>>◌, ◌==◌, if◌then◌else◌, u16}

-- `crc = (crc & 1) ? (crc >> 1) ^ poly : crc >> 1`
unfoldable pub shift_once : ℕ → ℕ → ℕ
shift_once poly crc = if bit_and crc 1 == 0 then crc >> 1 else bit_xor (crc >> 1) poly

-- the inner loop, `n` rounds
unfoldable pub shift_bits : ℕ → ℕ → ℕ → ℕ
shift_bits poly zero crc = crc
shift_bits poly (suc n) crc = shift_bits poly n (shift_once poly crc)

-- one byte of the outer loop
unfoldable pub feed_byte : ℕ → ℕ → ℕ → ℕ
feed_byte poly crc b = shift_bits poly 8 (bit_xor crc b)

unfoldable pub feed : ℕ → ℕ → List ℕ → ℕ
feed poly crc [] = crc
feed poly crc (b ∷ bs) = feed poly (feed_byte poly crc b) bs

abbrev pub poly16 : ℕ
poly16 = 0xA001

abbrev pub poly32 : ℕ
poly32 = 0xEDB88320

unfoldable pub crc16_modbus : List ℕ → ℕ
unfolding shift_once shift_bits feed_byte feed
crc16_modbus bytes = feed poly16 0xFFFF bytes

unfoldable pub crc32_ieee : List ℕ → ℕ
unfolding shift_once shift_bits feed_byte feed
crc32_ieee bytes = bit_xor (feed poly32 0xFFFFFFFF bytes) 0xFFFFFFFF
