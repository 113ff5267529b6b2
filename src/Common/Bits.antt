-- ===== src/Common/Bits.antt =====
-- `&`, `|` and `^` at variables: one equation for the lowest digit of each, from which the laws
-- of fields, of single bits and of cancellation follow by recursion on the digits.
use Prim.Native.Nat.{ℕ, zero, suc, ◌+◌, ◌-◌, ◌*◌, ◌/◌, ◌%◌, ◌^◌, ◌≤◌, ◌<◌, min, max}
use Prim.Native.Nat.{bit_and, bit_or, bit_xor, differ, digits, bitwise}
use Prim.Native.Nat.{bit_and-bitwise, bit_or-bitwise, bit_xor-bitwise}
use mathlib.Core.Path.{◌≡◌, refl, ap, ◌∙◌}
use mathlib.Core.Bool.{Bool, true, not, ◌&&◌}
use native.Mathlib.Nat.{le_refl, pow-suc, one-le-pow}
use native.Mathlib.Omega.{arith}
use io_edge_hub_freertos.Common.Tests.{◌==◌}

module _ (z : ℕ → ℕ) (f : ℕ → ℕ → ℕ) where
  -- Digits past those of the first number do not change the result.
  digits_enough : (n k a b : ℕ) → a ≤ n → a ≤ k → digits z f n a b ≡ digits z f k a b
  digits_enough zero zero a b p q = refl
  digits_enough zero (suc k) zero b p q = refl
  digits_enough (suc n) zero zero b p q = refl
  digits_enough (suc n) (suc k) zero b p q = refl
  digits_enough zero k (suc a) b p q = absurd (omega arith)
  digits_enough (suc n) zero (suc a) b p q = absurd (omega arith)
  digits_enough (suc n) (suc k) (suc a) b p q =
      ap (λ t. t * 2 + f (suc a % 2) (b % 2))
        (digits_enough n k (suc a / 2) (b / 2) (omega arith) (omega arith))

  bitwise_lowest :
      (n y : ℕ)
      → bitwise z f (suc n) y ≡ f (suc n % 2) (y % 2) + 2 * bitwise z f (suc n / 2) (y / 2)
  bitwise_lowest n y =
      omega (arith, digits_enough n (suc n / 2) (suc n / 2) (y / 2) (omega arith) (omega arith))

pub bit_and-halves : (x y : ℕ) → bit_and x y ≡ min (x % 2) (y % 2) + 2 * bit_and (x / 2) (y / 2)
bit_and-halves zero y = simp bit_and-bitwise (omega arith)
bit_and-halves (suc n) y = simp bit_and-bitwise (bitwise_lowest (λ k. 0) min n y)

pub bit_or-halves : (x y : ℕ) → bit_or x y ≡ max (x % 2) (y % 2) + 2 * bit_or (x / 2) (y / 2)
bit_or-halves zero y = simp bit_or-bitwise (omega arith)
bit_or-halves (suc n) y = simp bit_or-bitwise (bitwise_lowest (λ k. k) max n y)

differ_digits : (x y : ℕ) → x < 2 → y < 2 → differ x y ≡ (x + y) % 2
differ_digits zero y p q = omega arith
differ_digits (suc zero) zero p q = refl
differ_digits (suc zero) (suc zero) p q = refl
differ_digits (suc zero) (suc (suc y)) p q = absurd (omega arith)
differ_digits (suc (suc x)) y p q = absurd (omega arith)

pub bit_xor-halves : (a b : ℕ) → bit_xor a b ≡ bit_xor (a / 2) (b / 2) * 2 + (a + b) % 2
bit_xor-halves zero b = simp bit_xor-bitwise (omega arith)
bit_xor-halves (suc a) b = omega (
  arith,
  bit_xor-bitwise (suc a) b,
  bit_xor-bitwise (suc a / 2) (b / 2),
  bitwise_lowest (λ y. y) differ a b,
  differ_digits (suc a % 2) (b % 2) (omega arith) (omega arith),
)

-- Digit `i` of a number.
unfoldable pub bit_at : ℕ → ℕ → ℕ
bit_at zero a = a % 2
bit_at (suc i) a = bit_at i (a / 2)

pub bit_at-lt : (i a : ℕ) → bit_at i a < 2
unfolding bit_at
bit_at-lt zero a = omega arith
bit_at-lt (suc i) a = bit_at-lt i (a / 2)

pub bit_at-zero : (i : ℕ) → bit_at i 0 ≡ 0
unfolding bit_at
bit_at-zero zero = refl
bit_at-zero (suc i) = bit_at-zero i

pub bit_at-bit_or : (i a b : ℕ) → bit_at i (bit_or a b) ≡ max (bit_at i a) (bit_at i b)
unfolding bit_at
bit_at-bit_or zero a b = omega (arith, bit_or-halves a b)
bit_at-bit_or (suc i) a b =
    ap (bit_at i) {x = bit_or a b / 2} {y = bit_or (a / 2) (b / 2)}
      (omega (arith, bit_or-halves a b))
    ∙ bit_at-bit_or i (a / 2) (b / 2)

pub bit_at-bit_and : (i a b : ℕ) → bit_at i (bit_and a b) ≡ min (bit_at i a) (bit_at i b)
unfolding bit_at
bit_at-bit_and zero a b = omega (arith, bit_and-halves a b)
bit_at-bit_and (suc i) a b =
    ap (bit_at i) {x = bit_and a b / 2} {y = bit_and (a / 2) (b / 2)}
      (omega (arith, bit_and-halves a b))
    ∙ bit_at-bit_and i (a / 2) (b / 2)

bit_or-zero_fuel : (n a : ℕ) → a ≤ n → bit_or a 0 ≡ a
bit_or-zero_fuel n zero h = refl
bit_or-zero_fuel zero (suc a) h = absurd (omega arith)
bit_or-zero_fuel (suc n) (suc a) h =
    omega (arith, bit_or-halves (suc a) 0, bit_or-zero_fuel n (suc a / 2) (omega arith))

zero_mask : (bound x : ℕ) → x ≤ bound → bit_and x 0 ≡ 0
zero_mask bound zero h = refl
zero_mask zero (suc k) h = absurd (omega arith)
zero_mask (suc bound) (suc k) h =
    omega (arith, zero_mask bound (suc k / 2) (omega arith), bit_and-halves (suc k) 0)

pub bit_or-zero : (a : ℕ) → bit_or a 0 ≡ a
bit_or-zero a = bit_or-zero_fuel a a (le_refl a)

pub bit_and-zero : (x : ℕ) → bit_and x 0 ≡ 0
bit_and-zero x = zero_mask x x (le_refl x)

-- `(q << k) | r` is a sum when `r` has `k` digits at most.
pub bit_or_fields : (k q r : ℕ) → r < 2 ^ k → bit_or (q * 2 ^ k) r ≡ q * 2 ^ k + r
bit_or_fields zero q r h = ground (arith, bit_or-zero q)
bit_or_fields (suc k) q r h = ground (
  arith,
  bit_or-halves (q * 2 ^ suc k) r,
  pow-suc 2 k,
  ap (λ (t : ℕ). q * t) (pow-suc 2 k),
  bit_or_fields k q (r / 2),
)

-- `a & (1 << i)` keeps digit `i` alone.
pub bit_and_single : (i a : ℕ) → bit_and a (2 ^ i) ≡ bit_at i a * 2 ^ i
unfolding bit_at
bit_and_single zero a = omega (arith, bit_and-halves a 1, bit_and-zero (a / 2))
bit_and_single (suc i) a = ground (
  arith,
  bit_and-halves a (2 ^ suc i),
  pow-suc 2 i,
  ap (λ (t : ℕ). bit_at i (a / 2) * t) (pow-suc 2 i),
  bit_and_single i (a / 2),
)

pub bit_and-shifted : (k x m : ℕ) → bit_and (x * 2 ^ k) (m * 2 ^ k) ≡ bit_and x m * 2 ^ k
bit_and-shifted zero x m =
    let ex : x * 2 ^ 0 ≡ x = omega arith in
    let em : m * 2 ^ 0 ≡ m = omega arith in
    ap (λ t. bit_and t (m * 2 ^ 0)) ex ∙ (ap (bit_and x) em ∙ omega arith)
bit_and-shifted (suc k) x m = ground (
  arith,
  bit_and-halves (x * 2 ^ suc k) (m * 2 ^ suc k),
  pow-suc 2 k,
  ap (λ (t : ℕ). x * t) (pow-suc 2 k),
  ap (λ (t : ℕ). m * t) (pow-suc 2 k),
  ap (λ (t : ℕ). bit_and x m * t) (pow-suc 2 k),
  bit_and-shifted k x m,
)

-- A number below `2 ^ k` is its first `k` digits.
pub bit_at_ext :
    (k a b : ℕ) → a < 2 ^ k → b < 2 ^ k → ((i : ℕ) → i < k → bit_at i a ≡ bit_at i b) → a ≡ b
unfolding bit_at
bit_at_ext zero a b p q h = omega arith
bit_at_ext (suc k) a b p q h = omega (
  arith,
  pow-suc 2 k,
  h 0 (omega arith),
  bit_at_ext k (a / 2) (b / 2) (omega (arith, pow-suc 2 k)) (omega (arith, pow-suc 2 k))
      (λ i r. h (suc i) (omega arith)),
)

zero-bit_xor : (b : ℕ) → bit_xor 0 b ≡ b
zero-bit_xor b = bit_xor-bitwise 0 b

below_one : (a b : ℕ) → a < 1 → b < 1 → bit_xor a b ≡ 0
below_one zero zero p q = refl
below_one (suc a) b p q = absurd (omega arith)
below_one zero (suc b) p q = absurd (omega arith)

top_below_one : (a b : ℕ) → a < 1 → b < 1 → bit_xor a (1 + b) ≡ 1 + bit_xor a b
top_below_one zero zero p q = refl
top_below_one (suc a) b p q = absurd (omega arith)
top_below_one zero (suc b) p q = absurd (omega arith)

pub bit_xor-lt : (k a b : ℕ) → a < 2 ^ k → b < 2 ^ k → bit_xor a b < 2 ^ k
bit_xor-lt zero a b p q = omega (arith, below_one a b (omega arith) (omega arith))
bit_xor-lt (suc k) a b p q = omega (
  arith,
  pow-suc 2 k,
  bit_xor-halves a b,
  bit_xor-lt k (a / 2) (b / 2) (omega (arith, pow-suc 2 k)) (omega (arith, pow-suc 2 k)),
)

-- A set top digit on the right stays set when the left number does not reach it.
pub bit_xor-top : (k a b : ℕ) → a < 2 ^ k → b < 2 ^ k → bit_xor a (2 ^ k + b) ≡ 2 ^ k + bit_xor a b
bit_xor-top zero a b p q = top_below_one a b (omega arith) (omega arith)
bit_xor-top (suc k) a b p q = ground (
  arith,
  pow-suc 2 k,
  bit_xor-halves a b,
  bit_xor-halves a (2 ^ suc k + b),
  bit_xor-top k (a / 2) (b / 2),
)

pub bit_xor_cancel_right : (n a b c : ℕ) → a ≤ n → b ≤ n → bit_xor a c ≡ bit_xor b c → a ≡ b
bit_xor_cancel_right zero a b c p q e = omega arith
bit_xor_cancel_right (suc n) a b c p q e = omega (
  arith,
  bit_xor-halves a c,
  bit_xor-halves b c,
  bit_xor_cancel_right n (a / 2) (b / 2) (c / 2) (omega arith) (omega arith)
      (omega (arith, bit_xor-halves a c, bit_xor-halves b c)),
)

pub bit_xor_cancel_left : (n a b c : ℕ) → a ≤ n → bit_xor a b ≡ bit_xor a c → b ≡ c
bit_xor_cancel_left zero zero b c p e = omega (arith, zero-bit_xor b, zero-bit_xor c)
bit_xor_cancel_left (suc n) zero b c p e = omega (arith, zero-bit_xor b, zero-bit_xor c)
bit_xor_cancel_left zero (suc a) b c p e = absurd (omega arith)
bit_xor_cancel_left (suc n) (suc a) b c p e = omega (
  arith,
  bit_xor-halves (suc a) b,
  bit_xor-halves (suc a) c,
  bit_xor_cancel_left n (suc a / 2) (b / 2) (c / 2) (omega arith)
      (omega (arith, bit_xor-halves (suc a) b, bit_xor-halves (suc a) c)),
)

bit_and_fields : (k q r : ℕ) → r < 2 ^ k → bit_and (q * 2 ^ k + r) (2 ^ k - 1) ≡ r
bit_and_fields zero q r h = omega (arith, bit_and-zero (q * 2 ^ 0 + r))
bit_and_fields (suc k) q r h = ground (
  arith,
  bit_and-halves (q * 2 ^ suc k + r) (2 ^ suc k - 1),
  pow-suc 2 k,
  one-le-pow k 2,
  ap (λ (t : ℕ). q * t) (pow-suc 2 k),
  bit_and_fields k q (r / 2),
)

-- A mask of `k` low digits is the remainder by `2 ^ k`.
pub bit_and_low : (k a : ℕ) → bit_and a (2 ^ k - 1) ≡ a % 2 ^ k
bit_and_low k a = ground (arith, one-le-pow k 2, bit_and_fields k (a / 2 ^ k) (a % 2 ^ k))

bit_or_comm_fuel : (n a b : ℕ) → a ≤ n → b ≤ n → bit_or a b ≡ bit_or b a
bit_or_comm_fuel zero zero zero p q = refl
bit_or_comm_fuel zero zero (suc b) p q = absurd (omega arith)
bit_or_comm_fuel zero (suc a) b p q = absurd (omega arith)
bit_or_comm_fuel (suc n) a b p q = omega (
  arith,
  bit_or-halves a b,
  bit_or-halves b a,
  bit_or_comm_fuel n (a / 2) (b / 2) (omega arith) (omega arith),
)

pub bit_or_comm : (a b : ℕ) → bit_or a b ≡ bit_or b a
bit_or_comm a b = bit_or_comm_fuel (a + b) a b (omega arith) (omega arith)

-- A test holds of every number below a limit; closed instances are evaluated.
unfoldable pub holds_below : ℕ → (ℕ → Bool) → Bool
holds_below zero test = true
holds_below (suc limit) test = test limit && holds_below limit test

pub holds_below-lt :
    (limit : ℕ) (test : ℕ → Bool) (k : ℕ)
    → k < limit
    → holds_below limit test ≡ true
    → test k ≡ true
unfolding holds_below
holds_below-lt zero test k h e = absurd (omega arith)
holds_below-lt (suc limit) test k h e = ground (arith, holds_below-lt limit test k)

nonzero_product : (b m : ℕ) → b < 2 → 0 < m → not (b * m == 0) ≡ (b == 1)
nonzero_product zero m h p = ground arith
nonzero_product (suc zero) m h p = ground arith
nonzero_product (suc (suc b)) m h p = absurd (omega arith)

-- The C test `(a & (1 << i)) != 0`.
pub test_bit : (i a : ℕ) → not (bit_and a (2 ^ i) == 0) ≡ (bit_at i a == 1)
test_bit i a =
    rw (bit_and_single i a)
      (nonzero_product (bit_at i a) (2 ^ i) (bit_at-lt i a) (one-le-pow i 2 (omega arith)))

-- Exclusive or with the same value twice.
pub bit_xor_twice : (k a b : ℕ) → a < 2 ^ k → b < 2 ^ k → bit_xor (bit_xor a b) b ≡ a
bit_xor_twice zero a b ha hb =
    let ea : a ≡ 0 = omega arith in let eb : b ≡ 0 = omega arith in rw (ea, eb) refl
bit_xor_twice (suc k) a b ha hb =
    let half : bit_xor a b / 2 ≡ bit_xor (a / 2) (b / 2) = omega (arith, bit_xor-halves a b) in
    let rest = bit_xor_twice k (a / 2) (b / 2) (omega arith) (omega arith) in
    let outer = bit_xor-halves (bit_xor a b) b in
    omega (
      arith,
      outer ∙ ap (λ t. bit_xor t (b / 2) * 2 + (bit_xor a b + b) % 2) half,
      rest,
      bit_xor-halves a b,
    )
