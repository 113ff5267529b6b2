-- ===== src/Web/Sha1.antt =====
-- src/web/ws.c: SHA-1, for the handshake. Words have 32 bits.
pub mod Absorb
pub mod Padding
pub mod Standard
mod Tests
use io_edge_hub_freertos.Common.{
  ℕ, zero, suc, ◌+◌, ◌-◌, ◌*◌, ◌^◌, ◌%◌, Bool, true, false, not, List, [], ◌∷◌, ◌++◌, length,
}
use io_edge_hub_freertos.Common.{
  take, drop, get_or, byte_at, bit_and, bit_or, bit_xor, u8, u32, ◌<<◌, ◌>>◌, ltb, ◌==◌,
}
use io_edge_hub_freertos.Common.{if◌then◌else◌}

-- `c->h`, also the five working variables.
pub record Words : Type 0 where
  pub a : ℕ
  pub b : ℕ
  pub c : ℕ
  pub d : ℕ
  pub e : ℕ

-- `struct sha1_ctx`; `buf` is the buffer up to `buf_len`.
pub record Context : Type 0 where
  pub h : Words
  pub total : ℕ
  pub buf : List ℕ

abbrev pub initial : Words
initial = record { a = 0x67452301; b = 0xEFCDAB89; c = 0x98BADCFE; d = 0x10325476; e = 0xC3D2E1F0 }

unfoldable pub sha1_init : Context
sha1_init = record { h = initial; total = 0; buf = [] }

unfoldable pub sha_rol : ℕ → ℕ → ℕ
sha_rol v n = bit_or (u32 (v << n)) (v >> (32 - n))

-- `w[i]` of the block for `i < 16`
unfoldable pub block_word : List ℕ → ℕ → ℕ
block_word p i =
    bit_or
      (bit_or (bit_or (u32 (byte_at p (i * 4) << 24)) (byte_at p (i * 4 + 1) << 16))
        (byte_at p (i * 4 + 2) << 8))
      (byte_at p (i * 4 + 3))

-- The first loop, from `i` on.
unfoldable pub words_loop : ℕ → ℕ → List ℕ → List ℕ
unfolding block_word
words_loop zero i p = []
words_loop (suc left) i p = block_word p i ∷ words_loop left (i + 1) p

-- The second loop: `w` are the words so far, and the next is added.
unfoldable pub expand_loop : ℕ → ℕ → List ℕ → List ℕ
unfolding sha_rol
expand_loop zero i w = w
expand_loop (suc left) i w = expand_loop left (i + 1) (
    w
    ++ (sha_rol
          (bit_xor
            (bit_xor (bit_xor (get_or w (i - 3) 0) (get_or w (i - 8) 0)) (get_or w (i - 14) 0))
            (get_or w (i - 16) 0))
          1
        ∷ []))

-- `g` of round `i`; `~b` has 32 digits.
unfoldable pub mix : ℕ → Words → ℕ
mix i s =
    if ltb i 20
    then bit_or (bit_and s.b s.c) (bit_and (2 ^ 32 - 1 - s.b) s.d)
    else if ltb i 40
    then bit_xor (bit_xor s.b s.c) s.d
    else if ltb i 60
    then bit_or (bit_or (bit_and s.b s.c) (bit_and s.b s.d)) (bit_and s.c s.d)
    else bit_xor (bit_xor s.b s.c) s.d

unfoldable pub round_key : ℕ → ℕ
round_key i =
    if ltb i 20
    then 0x5A827999
    else if ltb i 40
    then 0x6ED9EBA1
    else if ltb i 60
    then 0x8F1BBCDC
    else 0xCA62C1D6

unfoldable pub round : ℕ → ℕ → Words → Words
unfolding mix round_key sha_rol
round i w s = record {
  a = u32 (sha_rol s.a 5 + mix i s + s.e + round_key i + w);
  b = s.a;
  c = sha_rol s.b 30;
  d = s.c;
  e = s.d;
}

-- The third loop, over the words that are left.
unfoldable pub rounds_loop : ℕ → List ℕ → Words → Words
unfolding round
rounds_loop i [] s = s
rounds_loop i (w ∷ ws) s = rounds_loop (i + 1) ws (round i w s)

unfoldable pub sha1_block : Words → List ℕ → Words
unfolding words_loop expand_loop rounds_loop
sha1_block h p =
    let s = rounds_loop 0 (expand_loop 64 16 (words_loop 16 0 p)) h in
    record {
      a = u32 (h.a + s.a);
      b = u32 (h.b + s.b);
      c = u32 (h.c + s.c);
      d = u32 (h.d + s.d);
      e = u32 (h.e + s.e);
    }

-- The loop of `sha1_update`, with fuel; a round takes a byte at least.
unfoldable pub update_loop : ℕ → Context → List ℕ → Context
update_loop zero c p = c
update_loop (suc fuel) c [] = c
update_loop (suc fuel) c (x ∷ xs) =
    let room = 64 - length c.buf in
    let n = if ltb (length (x ∷ xs)) room then length (x ∷ xs) else room in
    let buf = c.buf ++ take n (x ∷ xs) in
    let full = length buf == 64 in
    update_loop fuel
      (record c { h = if full then sha1_block c.h buf else c.h; buf = if full then [] else buf })
      (drop n (x ∷ xs))

-- `total` has 64 bits.
unfoldable pub sha1_update : Context → List ℕ → Context
unfolding update_loop
sha1_update c p =
    update_loop (suc (length p)) (record c { total = (c.total + length p) % 2 ^ 64 }) p

-- The padding loop of `sha1_final`, with fuel.
unfoldable pub pad_loop : ℕ → Context → Context
unfolding sha1_update
pad_loop zero c = c
pad_loop (suc fuel) c = elim (length c.buf == 56) [
  | true ↦ c
  | false ↦ pad_loop fuel (sha1_update c (0 ∷ []))
]

-- The eight bytes of `bits`, highest first.
unfoldable pub be64 : ℕ → List ℕ
be64 bits =
    u8 (bits >> 56)
    ∷ u8 (bits >> 48)
    ∷ u8 (bits >> 40)
    ∷ u8 (bits >> 32)
    ∷ u8 (bits >> 24)
    ∷ u8 (bits >> 16)
    ∷ u8 (bits >> 8)
    ∷ u8 (bits >> 0)
    ∷ []

unfoldable pub be32 : ℕ → List ℕ
be32 v = u8 (v >> 24) ∷ u8 (v >> 16) ∷ u8 (v >> 8) ∷ u8 v ∷ []

unfoldable pub output : Words → List ℕ
unfolding be32
output h = be32 h.a ++ (be32 h.b ++ (be32 h.c ++ (be32 h.d ++ be32 h.e)))

-- After 0x80 at most 63 bytes of zeros are needed, so a fuel of 64 is enough.
unfoldable pub sha1_final : Context → List ℕ
unfolding sha1_update pad_loop be64 output
sha1_final c =
    let bits = (c.total << 3) % 2 ^ 64 in
    let padded = pad_loop 64 (sha1_update c (0x80 ∷ [])) in
    output (sha1_update padded (be64 bits)).h

-- The digest of one text, as the handshake uses the three operations.
abbrev pub sha1 : List ℕ → List ℕ
sha1 text = sha1_final (sha1_update sha1_init text)
