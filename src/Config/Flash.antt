-- ===== src/Config/Flash.antt =====
-- src/include/io_flash.h: the operations that a client of the NOR flash is given, and what the
-- part's documentation says of them.
use io_edge_hub_freertos.Common.{ℕ, zero, suc, ◌+◌, ◌-◌, ◌%◌, ◌≤◌, ◌<◌, ◌≡◌, ◌⊎◌}
use io_edge_hub_freertos.Common.{Bool, true, Option, some, List, [], ◌∷◌, length, byte_at}

-- `struct io_flash`: the third argument of `read` and `erase` is the length.
pub record Flash (F : Type 0) : Type 0 where
  pub read : F → ℕ → ℕ → Option (List ℕ)
  pub erase : F → ℕ → ℕ → F × Bool
  pub write : F → ℕ → List ℕ → F × Bool

-- The `n` bytes from address `a` on.
abbrev pub cells : (ℕ → ℕ) → ℕ → ℕ → List ℕ
cells c a zero = []
cells c a (suc n) = c a ∷ cells c (a + 1) n

abbrev pub Outside : ℕ → ℕ → ℕ → Type 0
Outside a n i = (i < a) ⊎ (a + n ≤ i)

-- A program call stays in one 256-byte page.
abbrev pub InPage : ℕ → ℕ → Type 0
InPage a n = a % 256 + n ≤ 256

abbrev pub InSectors : ℕ → ℕ → Type 0
InSectors a n = (a % 4096 ≡ 0) × (n % 4096 ≡ 0)

-- The behaviour of a NOR part whose byte at an address is `cell`: a read that succeeds returns
-- the bytes; an erase or a program call changes nothing outside its range, whether it succeeds
-- or not; an erase that succeeds leaves 0xFF; and a program call that succeeds stores its bytes
-- where the flash was erased.
pub record IsNor {F : Type 0} (fl : Flash F) (cell : F → ℕ → ℕ) : Type 0 where
  pub read_cells :
      (f : F) (a n : ℕ) (bs : List ℕ) → fl.read f a n ≡ some bs → bs ≡ cells (cell f) a n
  pub erase_keeps :
      (f : F) (a n i : ℕ) → InSectors a n → Outside a n i → cell (fl.erase f a n).0 i ≡ cell f i
  pub erase_blank :
      (f : F) (a n i : ℕ)
      → InSectors a n
      → (fl.erase f a n).1 ≡ true
      → a ≤ i
      → i < a + n
      → cell (fl.erase f a n).0 i ≡ 255
  pub write_keeps :
      (f : F) (a : ℕ) (bs : List ℕ) (i : ℕ)
      → InPage a (length bs)
      → Outside a (length bs) i
      → cell (fl.write f a bs).0 i ≡ cell f i
  pub write_blank :
      (f : F) (a : ℕ) (bs : List ℕ) (i : ℕ)
      → InPage a (length bs)
      → (fl.write f a bs).1 ≡ true
      → a ≤ i
      → i < a + length bs
      → cell f i ≡ 255
      → cell (fl.write f a bs).0 i ≡ byte_at bs (i - a)
