-- ===== src/Util/Crc/Laws.antt =====
-- Both checksums move a register of `k + 1` digits by a polynomial whose top digit is set, so a
-- step loses nothing: it is injective in the register, and in the byte fed.
use native.Mathlib.Nat.{pow-suc}
use io_edge_hub_freertos.Common.{ℕ, zero, suc, ◌+◌, ◌/◌, ◌%◌, ◌^◌, ◌≤◌, ◌<◌, ◌≡◌, refl, arith}
use io_edge_hub_freertos.Common.{bit_and, bit_xor, List, [], ◌∷◌, ◌++◌, AllBelow}
use io_edge_hub_freertos.Common.{◌≢◌}
use io_edge_hub_freertos.Common.Bits.{bit_xor-lt, bit_xor-top, bit_and-halves, bit_and-zero}
use io_edge_hub_freertos.Common.Bits.{bit_xor_cancel_left, bit_xor_cancel_right}
use io_edge_hub_freertos.Util.Crc.{shift_once, shift_bits, feed_byte, feed}
use io_edge_hub_freertos.Util.Crc.{crc16_modbus, crc32_ieee, poly32}

bit_and-one : (a : ℕ) → bit_and a 1 ≡ a % 2
bit_and-one a = omega (arith, bit_and-halves a 1, bit_and-zero (a / 2))

pub feed-append :
    (poly crc : ℕ) (xs ys : List ℕ) → feed poly crc (xs ++ ys) ≡ feed poly (feed poly crc xs) ys
unfolding feed
feed-append poly crc [] ys = refl
feed-append poly crc (x ∷ xs) ys = feed-append poly (feed_byte poly crc x) xs ys

module _ (k low : ℕ) (low_fits : low < 2 ^ k) where
  shift_once-lt : (c : ℕ) → c < 2 ^ suc k → shift_once (2 ^ k + low) c < 2 ^ suc k
  unfolding shift_once
  shift_once-lt c h =
      ground (arith, pow-suc 2 k, bit_xor-lt k (c / 2) low, bit_xor-top k (c / 2) low)

  shift_once-injective :
      (a b : ℕ)
      → a < 2 ^ suc k
      → b < 2 ^ suc k
      → shift_once (2 ^ k + low) a ≡ shift_once (2 ^ k + low) b
      → a ≡ b
  unfolding shift_once
  shift_once-injective a b p q e = ground (
    arith,
    pow-suc 2 k,
    bit_and-one a,
    bit_and-one b,
    bit_xor-top k (a / 2) low,
    bit_xor-top k (b / 2) low,
    bit_xor_cancel_right (a + b) (a / 2) (b / 2) low,
  )

  shift_bits-lt : (n c : ℕ) → c < 2 ^ suc k → shift_bits (2 ^ k + low) n c < 2 ^ suc k
  unfolding shift_bits
  shift_bits-lt zero c h = h
  shift_bits-lt (suc n) c h = shift_bits-lt n _ (shift_once-lt c h)

  shift_bits-injective :
      (n a b : ℕ)
      → a < 2 ^ suc k
      → b < 2 ^ suc k
      → shift_bits (2 ^ k + low) n a ≡ shift_bits (2 ^ k + low) n b
      → a ≡ b
  unfolding shift_bits
  shift_bits-injective zero a b p q e = e
  shift_bits-injective (suc n) a b p q e =
      shift_once-injective a b p q
        (shift_bits-injective n _ _ (shift_once-lt a p) (shift_once-lt b q) e)

  module _ (byte_fits : 256 ≤ 2 ^ suc k) where
    pub feed_byte-lt : (c b : ℕ) → c < 2 ^ suc k → b < 256 → feed_byte (2 ^ k + low) c b < 2 ^ suc k
    unfolding feed_byte
    feed_byte-lt c b h r = shift_bits-lt 8 _ (bit_xor-lt (suc k) c b h (omega arith))

    pub feed-lt :
        (c : ℕ) (xs : List ℕ)
        → c < 2 ^ suc k
        → AllBelow 256 xs
        → feed (2 ^ k + low) c xs < 2 ^ suc k
    unfolding feed
    feed-lt c [] h r = h
    feed-lt c (x ∷ xs) h r = feed-lt (feed_byte (2 ^ k + low) c x) xs (feed_byte-lt c x h r.0) r.1

    feed-injective :
        (a b : ℕ) (xs : List ℕ)
        → a < 2 ^ suc k
        → b < 2 ^ suc k
        → AllBelow 256 xs
        → feed (2 ^ k + low) a xs ≡ feed (2 ^ k + low) b xs
        → a ≡ b
    unfolding feed feed_byte
    feed-injective a b [] p q r e = e
    feed-injective a b (x ∷ xs) p q r e =
        bit_xor_cancel_right (a + b) a b x (omega arith) (omega arith) (
          shift_bits-injective 8 _ _ (bit_xor-lt (suc k) a x p (omega arith))
            (bit_xor-lt (suc k) b x q (omega arith))
            (feed-injective (feed_byte (2 ^ k + low) a x) (feed_byte (2 ^ k + low) b x) xs
              (feed_byte-lt a x p r.0) (feed_byte-lt b x q r.0) r.1 e))

    -- Two inputs that differ in one byte leave different registers.
    pub feed_one_byte :
        (c : ℕ) (xs : List ℕ) (x y : ℕ) (ys : List ℕ)
        → c < 2 ^ suc k
        → AllBelow 256 xs
        → x < 256
        → y < 256
        → AllBelow 256 ys
        → feed (2 ^ k + low) c (xs ++ x ∷ ys) ≡ feed (2 ^ k + low) c (xs ++ y ∷ ys)
        → x ≡ y
    unfolding feed feed_byte
    feed_one_byte c [] x y ys p hx r s hy e = bit_xor_cancel_left c c x y (omega arith) (
        shift_bits-injective 8 _ _ (bit_xor-lt (suc k) c x p (omega arith))
          (bit_xor-lt (suc k) c y p (omega arith))
          (feed-injective _ _ ys (feed_byte-lt c x p r) (feed_byte-lt c y p s) hy e))
    feed_one_byte c (z ∷ xs) x y ys p hx r s hy e =
        feed_one_byte (feed_byte (2 ^ k + low) c z) xs x y ys (feed_byte-lt c z p hx.0) hx.1 r s hy
          e

pub crc16_modbus-lt : (xs : List ℕ) → AllBelow 256 xs → crc16_modbus xs < 2 ^ 16
unfolding crc16_modbus
crc16_modbus-lt xs h = feed-lt 15 0x2001 (omega arith) (omega arith) 0xFFFF xs (omega arith) h

pub crc32_ieee-lt : (xs : List ℕ) → AllBelow 256 xs → crc32_ieee xs < 2 ^ 32
unfolding crc32_ieee
crc32_ieee-lt xs h =
    bit_xor-lt 32 (feed poly32 0xFFFFFFFF xs) 0xFFFFFFFF
      (feed-lt 31 0x6DB88320 (omega arith) (omega arith) 0xFFFFFFFF xs (omega arith) h)
      (omega arith)

-- Each of the two checksums tells apart any two strings of bytes that differ in exactly one byte,
-- wherever it stands.
pub crc_detects_one_byte :
    (xs : List ℕ) (x y : ℕ) (ys : List ℕ)
    → AllBelow 256 xs
    → x < 256
    → y < 256
    → AllBelow 256 ys
    → x ≢ y
    → (crc16_modbus (xs ++ x ∷ ys) ≢ crc16_modbus (xs ++ y ∷ ys))
      × (crc32_ieee (xs ++ x ∷ ys) ≢ crc32_ieee (xs ++ y ∷ ys))
unfolding crc16_modbus crc32_ieee
crc_detects_one_byte xs x y ys p r s q ne = (
  (λ e. ne (
      feed_one_byte 15 0x2001 (omega arith) (omega arith) 0xFFFF xs x y ys (omega arith) p r s q
        e)),
  (λ e. ne (
      feed_one_byte 31 0x6DB88320 (omega arith) (omega arith) 0xFFFFFFFF xs x y ys (omega arith) p r
        s q
        (uninvert (feed poly32 0xFFFFFFFF (xs ++ x ∷ ys)) (feed poly32 0xFFFFFFFF (xs ++ y ∷ ys))
          e))),
)
  where
    uninvert : (a b : ℕ) → bit_xor a 0xFFFFFFFF ≡ bit_xor b 0xFFFFFFFF → a ≡ b
    uninvert a b e = bit_xor_cancel_right (a + b) a b 0xFFFFFFFF (omega arith) (omega arith) e
