-- ===== src/Web/Sha1/Standard.antt =====
-- SHA-1 as RFC 3174 writes it, apart from the code.
pub mod Block
pub mod Digest
use io_edge_hub_freertos.Common.{
  ℕ, zero, suc, ◌+◌, ◌-◌, ◌*◌, ◌/◌, ◌%◌, ◌^◌, List, [], ◌∷◌, ◌++◌, length, take, drop, byte_at,
  replicate, bit_and, bit_or, bit_xor, u32, ◌<<◌, ◌>>◌, ltb, if◌then◌else◌,
}
use io_edge_hub_freertos.Web.Sha1.{Words}

-- S^n(X) = (X << n) OR (X >> 32-n)
unfoldable pub circular_shift : ℕ → ℕ → ℕ
circular_shift n x = bit_or (u32 (x << n)) (x >> (32 - n))

-- Section 5: f(t;B,C,D) and K(t); NOT is on 32 bits.
unfoldable pub logical : ℕ → ℕ → ℕ → ℕ → ℕ
logical t b c d =
    if ltb t 20
    then bit_or (bit_and b c) (bit_and (2 ^ 32 - 1 - b) d)
    else if ltb t 40
    then bit_xor (bit_xor b c) d
    else if ltb t 60
    then bit_or (bit_or (bit_and b c) (bit_and b d)) (bit_and c d)
    else bit_xor (bit_xor b c) d

unfoldable pub constant_word : ℕ → ℕ
constant_word t =
    if ltb t 20
    then 0x5A827999
    else if ltb t 40
    then 0x6ED9EBA1
    else if ltb t 60
    then 0x8F1BBCDC
    else 0xCA62C1D6

-- Section 6.1, a and b: W(t) of the block `p`, by recursion on fuel above t.
unfoldable pub word_of : ℕ → List ℕ → ℕ → ℕ
unfolding circular_shift
word_of zero p t = 0
word_of (suc fuel) p t =
    if ltb t 16
    then bit_or
        (bit_or (bit_or (u32 (byte_at p (t * 4) << 24)) (byte_at p (t * 4 + 1) << 16))
          (byte_at p (t * 4 + 2) << 8))
        (byte_at p (t * 4 + 3))
    else circular_shift 1 (
        bit_xor
          (bit_xor (bit_xor (word_of fuel p (t - 3)) (word_of fuel p (t - 8)))
            (word_of fuel p (t - 14)))
          (word_of fuel p (t - 16)))

abbrev pub schedule : List ℕ → ℕ → ℕ
schedule p t = word_of (suc t) p t

-- Section 6.1, d.
unfoldable pub step : ℕ → ℕ → Words → Words
unfolding circular_shift logical constant_word
step t w s = record {
  a = u32 (circular_shift 5 s.a + logical t s.b s.c s.d + s.e + w + constant_word t);
  b = s.a;
  c = circular_shift 30 s.b;
  d = s.c;
  e = s.d;
}

unfoldable pub steps : ℕ → ℕ → (ℕ → ℕ) → Words → Words
unfolding step
steps zero t w s = s
steps (suc left) t w s = steps left (t + 1) w (step t (w t) s)

-- Section 6.1, c to e.
unfoldable pub process_block : Words → List ℕ → Words
unfolding steps word_of
process_block h p =
    let s = steps 80 0 (schedule p) h in
    record {
      a = u32 (h.a + s.a);
      b = u32 (h.b + s.b);
      c = u32 (h.c + s.c);
      d = u32 (h.d + s.d);
      e = u32 (h.e + s.e);
    }

-- The blocks of the padded text, one after the other.
unfoldable pub process_blocks : ℕ → Words → List ℕ → Words
unfolding process_block
process_blocks zero h text = h
process_blocks (suc n) h text = process_blocks n (process_block h (take 64 text)) (drop 64 text)

-- Four and eight octets, the highest first.
unfoldable pub octets4 : ℕ → List ℕ
octets4 v = v / 2 ^ 24 % 256 ∷ v / 2 ^ 16 % 256 ∷ v / 2 ^ 8 % 256 ∷ v % 256 ∷ []

unfoldable pub octets8 : ℕ → List ℕ
unfolding octets4
octets8 v = octets4 (v / 2 ^ 32) ++ octets4 v

-- Section 4: a 1, zeros up to 56 octets modulo 64, and the length in bits.
unfoldable pub pad : List ℕ → List ℕ
unfolding octets8
pad text =
    text ++ ((0x80 ∷ replicate ((119 - length text % 64) % 64) 0) ++ octets8 (8 * length text))

abbrev pub digest_octets : Words → List ℕ
digest_octets h = octets4 h.a ++ (octets4 h.b ++ (octets4 h.c ++ (octets4 h.d ++ octets4 h.e)))

-- Section 6.1, with H0 to H4.
unfoldable pub message_digest : List ℕ → List ℕ
unfolding pad process_blocks octets4
message_digest text = digest_octets (
    process_blocks (length (pad text) / 64)
      (record { a = 0x67452301; b = 0xEFCDAB89; c = 0x98BADCFE; d = 0x10325476; e = 0xC3D2E1F0 })
      (pad text))
