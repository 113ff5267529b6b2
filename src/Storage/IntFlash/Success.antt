-- ===== src/Storage/IntFlash/Success.antt =====
-- An erase and a write succeed while the HAL's calls do.
use io_edge_hub_freertos.Common.{ℕ, zero, suc, ◌+◌, ◌<◌, ◌≤◌, ◌≡◌, ap, ◌∙◌, arith, true, inl, inr}
use io_edge_hub_freertos.Common.{◌||◌, List, [], ◌∷◌, length, drop, length-drop, u32, leb}
use io_edge_hub_freertos.Common.{Bool, Bool-cases, if_true}
use io_edge_hub_freertos.Util.Bytes.{get_le32}
use io_edge_hub_freertos.Storage.IntFlash.{
  Hal, Sector, f4_sector_tab, align_4k, erase_loop, intflash_erase, program_next, write_loop,
  intflash_write,
}

-- No call of the HAL fails.
pub record AllSucceed {H : Type 0} (hal : Hal H) : Type 0 where
  pub unlock_ok : (h : H) → (hal.unlock h).1 ≡ true
  pub lock_ok : (h : H) → (hal.lock h).1 ≡ true
  pub erase_ok : (h : H) (n : ℕ) → (hal.erase_sector h n).1 ≡ true
  pub word_ok : (h : H) (a w : ℕ) → (hal.program_word h a w).1 ≡ true
  pub byte_ok : (h : H) (a v : ℕ) → (hal.program_byte h a v).1 ≡ true

module _ {H : Type 0} (hal : Hal H) (all : AllSucceed hal) where
  erase_loop-AllSucceed : (xs : List Sector) (h : H) (a e : ℕ) → (erase_loop hal xs h a e).1 ≡ true
  unfolding erase_loop
  erase_loop-AllSucceed [] h a e = all.lock_ok h
  erase_loop-AllSucceed (x ∷ xs) h a e =
      elim (Bool-cases (leb (x.addr + x.size) a || leb e x.addr)) [
        | inl t ↦ rw (t, erase_loop) (erase_loop-AllSucceed xs h a e)
        | inr t ↦
            rw (t, all.erase_ok h x.sector, erase_loop)
              (erase_loop-AllSucceed xs (hal.erase_sector h x.sector).0 a e)
      ]

  -- An erase within the flash.
  pub intflash_erase-AllSucceed :
      (h : H) (a len : ℕ)
      → 0x08000000 ≤ a
      → a + align_4k len ≤ 0x08080000
      → (intflash_erase hal h a len).1 ≡ true
  unfolding intflash_erase
  intflash_erase-AllSucceed h a len lo hi = ground (
    arith,
    all.unlock_ok h,
    erase_loop-AllSucceed f4_sector_tab (hal.unlock h).0 a (u32 (a + align_4k len)),
  )

  program_next_ok :
      (h : H) (a b : ℕ) (bs : List ℕ)
      → ((program_next hal h a (b ∷ bs)).1 ≡ true) × (0 < (program_next hal h a (b ∷ bs)).2)
  unfolding program_next
  program_next_ok h a b bs =
      (ground (arith, all.word_ok h a (get_le32 (b ∷ bs) 0), all.byte_ok h a b), ground arith)

  write_loop-AllSucceed :
      (fuel : ℕ) (h : H) (a : ℕ) (bytes : List ℕ)
      → length bytes < fuel
      → (write_loop hal fuel h a bytes).1 ≡ true
  unfolding write_loop
  write_loop-AllSucceed zero h a bytes f = absurd (omega arith)
  write_loop-AllSucceed (suc fuel) h a [] f = all.lock_ok h
  write_loop-AllSucceed (suc fuel) h a (b ∷ bs) f =
      let r = program_next hal h a (b ∷ bs) in
      rw ((program_next_ok h a b bs).0, write_loop)
        (write_loop-AllSucceed fuel r.0 (u32 (a + r.2)) (drop r.2 (b ∷ bs))
          (omega (arith, length-drop r.2 (b ∷ bs), (program_next_ok h a b bs).1)))

  pub intflash_write-AllSucceed :
      (h : H) (a : ℕ) (bytes : List ℕ) → (intflash_write hal h a bytes).1 ≡ true
  unfolding intflash_write
  intflash_write-AllSucceed h a bytes =
      ap (λ (r : H × Bool). r.1) (if_true (hal.unlock h).1 _ _ (all.unlock_ok h))
      ∙ write_loop-AllSucceed (suc (length bytes)) (hal.unlock h).0 a bytes (omega arith)
