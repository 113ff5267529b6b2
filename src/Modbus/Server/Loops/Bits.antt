-- ===== src/Modbus/Server/Loops/Bits.antt =====
-- The bit-packing loop of FC01 and FC02: which digit of which byte each channel ends in, and when
-- the loop fails.
use io_edge_hub_freertos.Common.{
  ℕ, zero, suc, ◌+◌, ◌-◌, ◌*◌, ◌/◌, ◌%◌, ◌^◌, ◌≤◌, ◌<◌, max, ◌≡◌, refl,
}
use io_edge_hub_freertos.Common.{ap, ◌∙◌, arith, Bool, true, false, ◌&&◌, Option, none, some, List}
use io_edge_hub_freertos.Common.{
  length, byte_at, set, length-set, get_or-set_self, get_or-set_ne, bit_or,
}
use io_edge_hub_freertos.Common.{u8, u16, ◌<<◌, ltb, leb, ◌==◌, if◌then◌else◌, Bool-cases, inl, inr}
use io_edge_hub_freertos.Common.{ltb→lt, ltb→le, ==→eq}
use io_edge_hub_freertos.Common.Bits.{bit_at, bit_at-lt, bit_at-bit_or, bit_at-bit_and, bit_and_low}
use io_edge_hub_freertos.Common.Bits.{holds_below, holds_below-lt}
use io_edge_hub_freertos.Modbus.Server.Loops.{bits_loop}

-- Bit `k` of a byte string, the lowest of the first byte being number 0.
unfoldable pub bit_of : List ℕ → ℕ → ℕ
bit_of buf k = bit_at (k % 8) (byte_at buf (k / 8))

-- The bit that stands for a callback's answer.
abbrev pub state_bit : Option Bool → ℕ
state_bit none = 0
state_bit (some b) = if b then 1 else 0

mask_holds : ℕ → ℕ → Bool
mask_holds j m =
    bit_at j (2 ^ m) == (if j == m then 1 else 0)
    && bit_at j 0xFF == 1
    && (if m + 1 == 8 then 1 else u8 (2 ^ m << 1)) == 2 ^ ((m + 1) % 8)

mask_table : holds_below 8 (λ m. holds_below 8 (λ j. mask_holds j m)) ≡ true
unfolding holds_below mask_holds bit_at
mask_table = refl

mask_lem :
    (j m : ℕ)
    → j < 8
    → m < 8
    → (bit_at j (2 ^ m) ≡ (if j == m then 1 else 0))
      × (bit_at j 0xFF ≡ 1)
      × ((if m + 1 == 8 then 1 else u8 (2 ^ m << 1)) ≡ 2 ^ ((m + 1) % 8))
unfolding mask_holds
mask_lem j m hj hm = ground (
  arith,
  holds_below-lt 8 (λ (k : ℕ). mask_holds k m) j hj
      (holds_below-lt 8 (λ (n : ℕ). holds_below 8 (λ k. mask_holds k n)) m hm mask_table),
)

-- `*presp |= bit_mask` for channel `c` sets bit `c` alone.
abbrev pub with_bit : List ℕ → ℕ → List ℕ
with_bit buf c = set buf (c / 8) (u8 (bit_or (byte_at buf (c / 8)) (2 ^ (c % 8))))

or_digit :
    (j m b : ℕ)
    → j < 8
    → m < 8
    → bit_at j (u8 (bit_or b (2 ^ m))) ≡ (if j == m then 1 else bit_at j b)
or_digit j m b hj hm = ground (
  arith,
  mask_lem j m hj hm,
  bit_and_low 8 (bit_or b (2 ^ m)),
  bit_at-bit_and j (bit_or b (2 ^ m)) 0xFF,
  bit_at-bit_or j b (2 ^ m),
  bit_at-lt j b,
)

pub bit_of-with_bit :
    (buf : List ℕ) (c k : ℕ)
    → c < 8 * length buf
    → bit_of (with_bit buf c) k ≡ (if k == c then 1 else bit_of buf k)
unfolding bit_of
bit_of-with_bit buf c k h = elim (Bool-cases (k / 8 == c / 8)) [
  | inl e ↦ ground (
    arith,
    or_digit (k % 8) (c % 8) (byte_at buf (c / 8)) (omega arith) (omega arith),
    get_or-set_self buf (c / 8) (u8 (bit_or (byte_at buf (c / 8)) (2 ^ (c % 8)))) 0,
  )
  | inr e ↦
      ground (
        arith,
        get_or-set_ne buf (c / 8) (k / 8) (u8 (bit_or (byte_at buf (c / 8)) (2 ^ (c % 8)))) 0,
      )
]

bit_of-lt : (buf : List ℕ) (k : ℕ) → bit_of buf k < 2
unfolding bit_of
bit_of-lt buf k = bit_at-lt (k % 8) (byte_at buf (k / 8))

next_mask :
    (c : ℕ)
    → c < 2000
    → (if u16 (c + 1) % 8 == 0 then 1 else u8 (2 ^ (c % 8) << 1)) ≡ 2 ^ ((c + 1) % 8)
next_mask c h =
    let e : (c + 1) % 8 ≡ (c % 8 + 1) % 8 = omega arith in
    rw e (ground (arith, (mask_lem 0 (c % 8) (omega arith) (omega arith)).2))

next_offset : (c : ℕ) → c < 2000 → (if u16 (c + 1) % 8 == 0 then c / 8 + 1 else c / 8) ≡ (c + 1) / 8
next_offset c h = ground arith

module _ (rd : ℕ → Option Bool) where
  -- The buffer after the round of channel `c`, at address `a`.
  abbrev pub stepped : List ℕ → ℕ → Option Bool → List ℕ
  stepped buf c none = buf
  stepped buf c (some b) = if b then with_bit buf c else buf

  -- A round from the state that belongs to `c` goes to the state that belongs to `c + 1`.
  bits_loop-suc :
      (left addr c : ℕ) (buf : List ℕ) (b : Bool)
      → c < 2000
      → addr < 65535
      → rd addr ≡ some b
      → bits_loop rd (suc left) addr c (2 ^ (c % 8)) (c / 8) buf
        ≡ bits_loop rd left
            (addr + 1)
            (c + 1)
            (2 ^ ((c + 1) % 8))
            ((c + 1) / 8)
            (stepped buf c (some b))
  unfolding bits_loop
  bits_loop-suc left addr c buf b hc ha e =
      rw (e, bits_loop)
        (λ i.
          bits_loop rd left (next_addr i) (next_cntr i) (next_mask c hc i) (next_offset c hc i)
            (stepped buf c (some b)))
    where
      next_addr : u16 (addr + 1) ≡ addr + 1
      next_addr = omega arith

      next_cntr : u16 (c + 1) ≡ c + 1
      next_cntr = omega arith

  -- Bit `k` of what the loop leaves is the old bit or the answer for its channel.
  abbrev wanted : ℕ → ℕ → ℕ → List ℕ → ℕ → ℕ
  wanted left addr c buf k =
      if leb c k && ltb k (c + left)
      then max (bit_of buf k) (state_bit (rd (addr + (k - c))))
      else bit_of buf k

  bit_of-stepped :
      (buf : List ℕ) (c k : ℕ) (b : Bool)
      → c < 8 * length buf
      → bit_of (stepped buf c (some b)) k
        ≡ (if k == c then max (bit_of buf k) (state_bit (some b)) else bit_of buf k)
  bit_of-stepped buf c k true h = ground (arith, bit_of-with_bit buf c k h, bit_of-lt buf k)
  bit_of-stepped buf c k false h = ground arith

  length-stepped : (buf : List ℕ) (c : ℕ) (b : Bool) → length (stepped buf c (some b)) ≡ length buf
  length-stepped buf c true = length-set buf (c / 8) _
  length-stepped buf c false = refl

  -- The value that a round adds, told apart by where `k` stands.
  wanted-suc :
      (left addr c : ℕ) (buf : List ℕ) (b : Bool) (k : ℕ)
      → c < 8 * length buf
      → rd addr ≡ some b
      → wanted left (addr + 1) (c + 1) (stepped buf c (some b)) k ≡ wanted (suc left) addr c buf k
  wanted-suc left addr c buf b k h e = elim (Bool-cases (ltb c k)) [
    | inl above ↦
        let q : addr + 1 + (k - (c + 1)) ≡ addr + (k - c) = omega (arith, ltb→lt c k above) in
        ground (arith, bit_of-stepped buf c k b h, ap rd q)
    | inr below ↦ elim (Bool-cases (k == c)) [
      | inl same ↦
          let q : addr + (k - c) ≡ addr = omega (arith, ==→eq k c same) in
          ground (arith, bit_of-stepped buf c k b h, ap rd q)
      | inr less ↦ ground (arith, bit_of-stepped buf c k b h)
    ]
  ]

  -- Where every callback answers, the loop succeeds, keeps the number of bytes, and each answer is
  -- in the bit of its channel.
  pub bits_loop_total :
      (left addr c : ℕ) (buf : List ℕ)
      → c + left ≤ 2000
      → addr + left ≤ 65535
      → c + left ≤ 8 * length buf
      → ((j : ℕ) → j < left → (b : Bool) × (rd (addr + j) ≡ some b))
      → (out : List ℕ) × (bits_loop rd left addr c (2 ^ (c % 8)) (c / 8) buf ≡ some out)
        × (length out ≡ length buf)
        × ((k : ℕ) → bit_of out k ≡ wanted left addr c buf k)
  unfolding bits_loop
  bits_loop_total zero addr c buf hc ha hl answers = (buf, refl, refl, λ k. ground arith)
  bits_loop_total (suc left) addr c buf hc ha hl answers =
      let b = (answers 0 (omega arith)).0 in
      let e : rd addr ≡ some b =
        ap rd {x = addr} {y = addr + 0} (omega arith) ∙ (answers 0 (omega arith)).1 in
      let (out, found, size, bits) =
        bits_loop_total left (addr + 1) (c + 1) (stepped buf c (some b)) (omega arith) (omega arith)
          (omega (arith, length-stepped buf c b))
          (λ j p.
            let (b', e') = answers (suc j) (omega arith) in
            (b', ap rd {x = addr + 1 + j} {y = addr + suc j} (omega arith) ∙ e')) in
      (
        out,
        bits_loop-suc left addr c buf b (omega arith) (omega arith) e ∙ found,
        size ∙ length-stepped buf c b,
        λ k. bits k ∙ wanted-suc left addr c buf b k (omega arith) e,
      )

  -- Where a callback refuses every address from a limit on and the range goes past it, the loop
  -- fails.
  pub bits_loop-none :
      (limit left addr c mask i : ℕ) (buf : List ℕ)
      → limit < 65535
      → ((a : ℕ) → limit ≤ a → rd a ≡ none)
      → addr < 65536
      → limit < addr + left
      → 0 < left
      → bits_loop rd left addr c mask i buf ≡ none
  unfolding bits_loop
  bits_loop-none limit zero addr c mask i buf hl refuse ha past pos = absurd (omega arith)
  bits_loop-none limit (suc left) addr c mask i buf hl refuse ha past pos =
      go (rd addr) refl (λ c' mask' i' buf' below.
        bits_loop-none limit left (u16 (addr + 1)) c' mask' i' buf' hl refuse (omega arith)
          (omega arith) (omega arith))
    where
      go :
          (r : Option Bool)
          → rd addr ≡ r
          → ((c' mask' i' : ℕ) (buf' : List ℕ)
              → addr < limit
              → bits_loop rd left (u16 (addr + 1)) c' mask' i' buf' ≡ none)
          → bits_loop rd (suc left) addr c mask i buf ≡ none
      go none e ih = rw (e, bits_loop)
      go (some b) e ih = elim (Bool-cases (ltb addr limit)) [
        | inl below ↦ rw (e, bits_loop) (ih _ _ _ _ (ltb→lt addr limit below))
        | inr above ↦ absurd (cc (refuse addr (ltb→le addr limit above)))
      ]
