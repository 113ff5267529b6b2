-- ===== src/Config/Codec.antt =====
-- The 40-byte slot record: magic, generation, length, the thirteen 16-bit values of `struct
-- io_cfg` in the target's (little-endian) byte order, and the CRC-32 of all before it.
pub mod RoundTrip
use io_edge_hub_freertos.Common.{ℕ, ◌+◌, ◌*◌, ◌/◌, ◌%◌, ◌^◌, ◌≤◌, ◌<◌, ◌≡◌, refl, arith}
use io_edge_hub_freertos.Common.{Bool, true, false, ◌&&◌, not, List, [], ◌∷◌, ◌++◌, AllBelow}
use io_edge_hub_freertos.Common.{bit_or, byte_at, take, drop, u8, u16, ◌<<◌, ◌>>◌, ◌==◌}
use io_edge_hub_freertos.Common.{if◌then◌else◌}
use io_edge_hub_freertos.Util.Bytes.{get_le32, put_le32, get-put, bytes16}
use io_edge_hub_freertos.Util.Crc.{crc32_ieee}

-- `struct io_cfg`; the array `ip` is its four entries.
pub record IoCfg : Type 0 where
  pub di_en : ℕ
  pub ai_en : ℕ
  pub di_si : ℕ
  pub ai_si : ℕ
  pub his : ℕ
  pub can_id : ℕ
  pub can_bps : ℕ
  pub rs485_bps : ℕ
  pub slave_id : ℕ
  pub ip0 : ℕ
  pub ip1 : ℕ
  pub ip2 : ℕ
  pub ip3 : ℕ

unfoldable pub get_defaults : IoCfg
get_defaults = record {
  di_en = 0xFFFF;
  ai_en = 0x000F;
  di_si = 200;
  ai_si = 200;
  his = 0;
  can_id = 0x0111;
  can_bps = 250;
  rs485_bps = 9600;
  slave_id = 1;
  ip0 = 192;
  ip1 = 168;
  ip2 = 12;
  ip3 = 101;
}

-- Every field is a `uint16_t`.
pub record IsWords (c : IoCfg) : Type 0 where
  pub di_en_fits : c.di_en < 2 ^ 16
  pub ai_en_fits : c.ai_en < 2 ^ 16
  pub di_si_fits : c.di_si < 2 ^ 16
  pub ai_si_fits : c.ai_si < 2 ^ 16
  pub his_fits : c.his < 2 ^ 16
  pub can_id_fits : c.can_id < 2 ^ 16
  pub can_bps_fits : c.can_bps < 2 ^ 16
  pub rs485_bps_fits : c.rs485_bps < 2 ^ 16
  pub slave_id_fits : c.slave_id < 2 ^ 16
  pub ip0_fits : c.ip0 < 2 ^ 16
  pub ip1_fits : c.ip1 < 2 ^ 16
  pub ip2_fits : c.ip2 < 2 ^ 16
  pub ip3_fits : c.ip3 < 2 ^ 16

unfoldable pub put_le16 : ℕ → List ℕ
put_le16 v = u8 (v % 256) ∷ u8 (v >> 8) ∷ []

unfoldable pub get_le16 : List ℕ → ℕ → ℕ
get_le16 p i = u16 (bit_or (byte_at p i) (byte_at p (i + 1) << 8))

-- `memcpy` of the structure into the record, and back.
unfoldable pub cfg_bytes : IoCfg → List ℕ
unfolding put_le16
cfg_bytes c =
    put_le16 c.di_en
    ++ (put_le16 c.ai_en
        ++ (put_le16 c.di_si
            ++ (put_le16 c.ai_si
                ++ (put_le16 c.his
                    ++ (put_le16 c.can_id
                        ++ (put_le16 c.can_bps
                            ++ (put_le16 c.rs485_bps
                                ++ (put_le16 c.slave_id
                                    ++ (put_le16 c.ip0
                                        ++ (put_le16 c.ip1
                                            ++ (put_le16 c.ip2 ++ put_le16 c.ip3)))))))))))

unfoldable pub cfg_at : List ℕ → ℕ → IoCfg
unfolding get_le16
cfg_at p i = record {
  di_en = get_le16 p i;
  ai_en = get_le16 p (i + 2);
  di_si = get_le16 p (i + 4);
  ai_si = get_le16 p (i + 6);
  his = get_le16 p (i + 8);
  can_id = get_le16 p (i + 10);
  can_bps = get_le16 p (i + 12);
  rs485_bps = get_le16 p (i + 14);
  slave_id = get_le16 p (i + 16);
  ip0 = get_le16 p (i + 18);
  ip1 = get_le16 p (i + 20);
  ip2 = get_le16 p (i + 22);
  ip3 = get_le16 p (i + 24);
}

-- "IOCF"
abbrev pub magic : List ℕ
magic = 0x49 ∷ 0x4F ∷ 0x43 ∷ 0x46 ∷ []

unfoldable pub has_magic : List ℕ → Bool
has_magic p =
    byte_at p 0 == 0x49 && byte_at p 1 == 0x4F && byte_at p 2 == 0x43 && byte_at p 3 == 0x46

-- The first 36 bytes of a record: header and body.
unfoldable pub rec_body : ℕ → IoCfg → List ℕ
unfolding put_le32 put_le16 cfg_bytes
rec_body gen c = magic ++ (put_le32 gen ++ (put_le16 26 ++ cfg_bytes c))

unfoldable pub rec_bytes : ℕ → IoCfg → List ℕ
unfolding put_le32 rec_body
rec_bytes gen c = rec_body gen c ++ put_le32 (crc32_ieee (rec_body gen c))

-- What `slot_read` returns: 0 with the record's content, 1 or -1.
pub data SlotRead : Type 0 where
  valid : IoCfg → ℕ → SlotRead
  invalid io_error : SlotRead

-- `slot_read` after its read: magic, length and CRC are checked in this order.
unfoldable pub decode : List ℕ → SlotRead
unfolding has_magic get_le16 get_le32 cfg_at
decode rec =
    if not (has_magic rec)
    then invalid
    else if not (get_le16 rec 8 == 26)
    then invalid
    else if not (get_le32 rec 36 == crc32_ieee (take 36 rec))
    then invalid
    else valid (cfg_at rec 10) (get_le32 rec 4)
