-- ===== src/Config/Codec/RoundTrip.antt =====
-- A record that is written is read back.
use io_edge_hub_freertos.Common.{ℕ, ◌%◌, ◌^◌, ◌<◌, ◌≡◌, refl, arith}
use io_edge_hub_freertos.Common.{AllBelow, bit_or}
use io_edge_hub_freertos.Common.{take, u8, u16, u32, ◌<<◌, ◌>>◌, true, eq→==}
use io_edge_hub_freertos.Common.Bits.{bit_or_comm, bit_or_fields}
use io_edge_hub_freertos.Util.Bytes.{get_le32, bytes32}
use io_edge_hub_freertos.Util.Crc.{crc32_ieee}
use io_edge_hub_freertos.Util.Crc.Laws.{crc32_ieee-lt}
use io_edge_hub_freertos.Config.Codec.{IoCfg, IsWords, get_le16, cfg_at}
use io_edge_hub_freertos.Config.Codec.{rec_body, rec_bytes, decode, valid, has_magic}

le16 : (v : ℕ) → v < 2 ^ 16 → u16 (bit_or (u8 (v % 256)) (u8 (v >> 8) << 8)) ≡ v
le16 v h = omega (
  arith,
  bit_or_comm (u8 (v % 256)) (u8 (v >> 8) << 8),
  bit_or_fields 8 (u8 (v >> 8)) (u8 (v % 256)) (omega arith),
)

le32 :
    (v : ℕ)
    → v < 2 ^ 32
    → bit_or
        (bit_or (bit_or (u32 (u8 (v >> 24) << 24)) (u8 (v >> 16) << 16)) (u8 (v >> 8) << 8))
        (u8 v)
      ≡ v
le32 v h = omega (
  arith,
  bytes32 (u8 (v >> 24)) (u8 (v >> 16)) (u8 (v >> 8)) (u8 v) (omega arith) (omega arith)
      (omega arith) (omega arith),
)

rec_body-AllBelow : (gen : ℕ) (c : IoCfg) → AllBelow 256 (rec_body gen c)
unfolding rec_body
rec_body-AllBelow gen c = omega arith

take-rec_bytes : (gen : ℕ) (c : IoCfg) → take 36 (rec_bytes gen c) ≡ rec_body gen c
unfolding rec_bytes
take-rec_bytes gen c = refl

get_le32-rec_bytes :
    (gen : ℕ) (c : IoCfg) → get_le32 (rec_bytes gen c) 36 ≡ crc32_ieee (rec_body gen c)
unfolding rec_bytes get_le32
get_le32-rec_bytes gen c =
    le32 (crc32_ieee (rec_body gen c)) (crc32_ieee-lt _ (rec_body-AllBelow gen c))

gen-rec_bytes : (gen : ℕ) (c : IoCfg) → gen < 2 ^ 32 → get_le32 (rec_bytes gen c) 4 ≡ gen
unfolding rec_bytes get_le32
gen-rec_bytes gen c h = le32 gen h

cfg_at-rec_bytes : (gen : ℕ) (c : IoCfg) → IsWords c → cfg_at (rec_bytes gen c) 10 ≡ c
unfolding rec_bytes cfg_at
cfg_at-rec_bytes gen c w = λ i. record {
  di_en = le16 c.di_en w.di_en_fits i;
  ai_en = le16 c.ai_en w.ai_en_fits i;
  di_si = le16 c.di_si w.di_si_fits i;
  ai_si = le16 c.ai_si w.ai_si_fits i;
  his = le16 c.his w.his_fits i;
  can_id = le16 c.can_id w.can_id_fits i;
  can_bps = le16 c.can_bps w.can_bps_fits i;
  rs485_bps = le16 c.rs485_bps w.rs485_bps_fits i;
  slave_id = le16 c.slave_id w.slave_id_fits i;
  ip0 = le16 c.ip0 w.ip0_fits i;
  ip1 = le16 c.ip1 w.ip1_fits i;
  ip2 = le16 c.ip2 w.ip2_fits i;
  ip3 = le16 c.ip3 w.ip3_fits i;
}

header-rec_bytes :
    (gen : ℕ) (c : IoCfg)
    → (has_magic (rec_bytes gen c) ≡ true) × (get_le16 (rec_bytes gen c) 8 ≡ 26)
unfolding rec_bytes has_magic get_le16
header-rec_bytes gen c = (refl, refl)

-- The record that a save builds for a configuration and a generation is accepted by the reader
-- and gives both back, for sixteen-bit fields and a 32-bit generation.
pub decode-rec_bytes :
    (gen : ℕ) (c : IoCfg) → gen < 2 ^ 32 → IsWords c → decode (rec_bytes gen c) ≡ valid c gen
decode-rec_bytes gen c h w =
    unfold decode in
    rw (
      (header-rec_bytes gen c).0,
      (header-rec_bytes gen c).1,
      take-rec_bytes gen c,
      eq→== _ _ (get_le32-rec_bytes gen c),
      cfg_at-rec_bytes gen c w,
      gen-rec_bytes gen c h,
    )
