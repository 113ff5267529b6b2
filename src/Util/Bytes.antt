-- ===== src/Util/Bytes.antt =====
-- src/util/io_bytes.c: byte-order helpers over byte buffers. A reader takes the buffer and the
-- offset of `p` in it; a writer is the bytes that it stores from `p` on.
use io_edge_hub_freertos.Common.{ℕ, ◌+◌, ◌*◌, ◌^◌, ◌<◌, ◌≡◌, arith, bit_or}
use io_edge_hub_freertos.Common.{List, [], ◌∷◌, u8, u16, u32, ◌<<◌, ◌>>◌, byte_at}
use io_edge_hub_freertos.Common.Bits.{bit_or_fields}

unfoldable pub get_be16 : List ℕ → ℕ → ℕ
get_be16 p i = u16 (bit_or (byte_at p i << 8) (byte_at p (i + 1)))

unfoldable pub get_be32 : List ℕ → ℕ → ℕ
get_be32 p i =
    bit_or
      (bit_or (bit_or (u32 (byte_at p i << 24)) (byte_at p (i + 1) << 16)) (byte_at p (i + 2) << 8))
      (byte_at p (i + 3))

unfoldable pub get_le32 : List ℕ → ℕ → ℕ
get_le32 p i =
    bit_or
      (bit_or (bit_or (u32 (byte_at p (i + 3) << 24)) (byte_at p (i + 2) << 16))
        (byte_at p (i + 1) << 8))
      (byte_at p i)

unfoldable pub put_be16 : ℕ → List ℕ
put_be16 v = u8 (v >> 8) ∷ u8 v ∷ []

unfoldable pub put_be32 : ℕ → List ℕ
put_be32 v = u8 (v >> 24) ∷ u8 (v >> 16) ∷ u8 (v >> 8) ∷ u8 v ∷ []

unfoldable pub put_le32 : ℕ → List ℕ
put_le32 v = u8 v ∷ u8 (v >> 8) ∷ u8 (v >> 16) ∷ u8 (v >> 24) ∷ []

pub bytes16 : (a b : ℕ) → a < 256 → b < 256 → u16 (bit_or (a << 8) b) ≡ a * 256 + b
bytes16 a b p q = omega (arith, bit_or_fields 8 a b q)

-- Four bytes joined by `|`, from the top one down.
pub bytes32 :
    (a b c d : ℕ)
    → a < 256
    → b < 256
    → c < 256
    → d < 256
    → bit_or (bit_or (bit_or (u32 (a << 24)) (b << 16)) (c << 8)) d
      ≡ a * 2 ^ 24 + b * 2 ^ 16 + c * 2 ^ 8 + d
bytes32 a b c d p q r s = rw (second, third) (omega (arith, low))
  where
    second : bit_or (u32 (a << 24)) (b << 16) ≡ (a * 256 + b) * 2 ^ 16
    second =
        let e : u32 (a << 24) ≡ a * 2 ^ 24 = omega arith in
        rw e (omega (arith, bit_or_fields 24 a (b * 2 ^ 16) (omega arith)))

    third : bit_or ((a * 256 + b) * 2 ^ 16) (c << 8) ≡ ((a * 256 + b) * 256 + c) * 2 ^ 8
    third = omega (arith, bit_or_fields 16 (a * 256 + b) (c * 256) (omega arith))

    low : bit_or (((a * 256 + b) * 256 + c) * 2 ^ 8) d ≡ ((a * 256 + b) * 256 + c) * 2 ^ 8 + d
    low = bit_or_fields 8 ((a * 256 + b) * 256 + c) d s

module _ (p : List ℕ) (i : ℕ) where
  pub get_be16-eq :
      byte_at p i < 256
      → byte_at p (i + 1) < 256
      → get_be16 p i ≡ byte_at p i * 256 + byte_at p (i + 1)
  unfolding get_be16
  get_be16-eq h k = bytes16 (byte_at p i) (byte_at p (i + 1)) h k

pub get_be16-lt : (p : List ℕ) (i : ℕ) → get_be16 p i < 2 ^ 16
unfolding get_be16
get_be16-lt p i = omega arith

-- A value of each width and byte order that is stored and read again is the same value, and
-- storing what a big-endian 16-bit read of two bytes gave stores those two bytes.
pub get-put :
    (v w a b : ℕ)
    → v < 2 ^ 16
    → w < 2 ^ 32
    → a < 256
    → b < 256
    → (get_be16 (put_be16 v) 0 ≡ v)
      × (get_be32 (put_be32 w) 0 ≡ w)
      × (get_le32 (put_le32 w) 0 ≡ w)
      × (put_be16 (get_be16 (a ∷ b ∷ []) 0) ≡ a ∷ b ∷ [])
unfolding get_be16 get_be32 get_le32 put_be16 put_be32 put_le32
get-put v w a b hv hw ha hb = (
  omega (arith, bytes16 (u8 (v >> 8)) (u8 v) (omega arith) (omega arith)),
  omega (
    arith,
    bytes32 (u8 (w >> 24)) (u8 (w >> 16)) (u8 (w >> 8)) (u8 w) (omega arith) (omega arith)
        (omega arith) (omega arith),
  ),
  omega (
    arith,
    bytes32 (u8 (w >> 24)) (u8 (w >> 16)) (u8 (w >> 8)) (u8 w) (omega arith) (omega arith)
        (omega arith) (omega arith),
  ),
  ground (arith, bytes16 a b ha hb),
)
