-- ===== src/Storage/IntFlash/Laws.antt =====
-- What an erase and a write of the microcontroller's flash leave in its cells.
use mathlib.Core.Path.{subst}
use io_edge_hub_freertos.Common.{
  ℕ, suc, ◌+◌, ◌^◌, ◌<◌, ◌≤◌, ◌≡◌, refl, sym, ◌∙◌, arith, Bool, true, false,
}
use io_edge_hub_freertos.Common.{◌||◌, inl, inr, List, length, AllBelow, u32}
use io_edge_hub_freertos.Common.{ltb, ◌==◌, Bool-cases, if_true, if_false}
use io_edge_hub_freertos.Common.{==→eq}
use io_edge_hub_freertos.Config.Flash.{Outside, cells}
use io_edge_hub_freertos.Config.Store.Program.{cells_ext}
use io_edge_hub_freertos.Storage.IntFlash.{
  Hal, f4_sector_tab, align_4k, erase_loop, intflash_erase, intflash_write, IsIntFlash,
}
use io_edge_hub_freertos.Storage.IntFlash.Loops.{
  InSome, AllClear, Erased, erase_loop-Erased, erase_loop-keeps, Wrote, write_loop-Wrote,
}

-- The table covers the flash.
f4_sector_tab-InSome : (i : ℕ) → 0x08000000 ≤ i → i < 0x08080000 → InSome i f4_sector_tab
f4_sector_tab-InSome i lo hi = ground arith

-- No sector above the boot loader's 64 KiB reaches into them.
f4_sector_tab-AllClear : (a i : ℕ) → 0x08010000 ≤ a → i < 0x08010000 → AllClear a i f4_sector_tab
f4_sector_tab-AllClear a i lo hi = (
  inl (omega arith),
  (
    inl (omega arith),
    (
      inl (omega arith),
      (
        inl (omega arith),
        (inr (omega arith), (inr (omega arith), (inr (omega arith), (inr (omega arith), tt)))),
      ),
    ),
  ),
)

module _ {H : Type 0} (hal : Hal H) (cell : H → ℕ → ℕ) (part : IsIntFlash hal cell) where
  -- What holds of each outcome of an erase holds of the erase.
  erase_cases :
      (P : H × Bool → Type 0) (h : H) (a len : ℕ)
      → ((len == 0) ≡ true → P (h, true))
      → P (h, false)
      → P ((hal.unlock h).0, false)
      → ((ltb a 0x08000000 || ltb 0x08080000 (u32 (a + align_4k len))) ≡ false
          → P (erase_loop hal f4_sector_tab (hal.unlock h).0 a (u32 (a + align_4k len))))
      → P (intflash_erase hal h a len)
  unfolding intflash_erase
  erase_cases P h a len nothing outside locked run = elim (Bool-cases (len == 0)) [
    | inl e ↦ subst P (sym (if_true (len == 0) _ _ e)) (nothing e)
    | inr ne ↦
        subst P (sym (if_false (len == 0) _ _ ne))
          (elim (Bool-cases (ltb a 0x08000000 || ltb 0x08080000 (u32 (a + align_4k len)))) [
            | inl e ↦ subst P (sym (if_true _ _ _ e)) outside
            | inr within ↦
                subst P (sym (if_false _ _ _ within)) (elim (Bool-cases (hal.unlock h).1) [
                  | inl e ↦ subst P (sym (if_true _ _ _ e)) (run within)
                  | inr e ↦ subst P (sym (if_false _ _ _ e)) locked
                ])
          ])
  ]

  -- On a part that behaves as its manual says, an erase of a range that does not wrap and that
  -- reports success leaves 0xFF in every byte of it.
  pub intflash_erase-blank :
      (h : H) (a len i : ℕ)
      → a + len + 0xFFF < 2 ^ 32
      → a ≤ i
      → i < a + len
      → Erased hal cell i (intflash_erase hal h a len)
  intflash_erase-blank h a len i fits lo hi =
      erase_cases (Erased hal cell i) h a len (λ e. absurd (omega (arith, ==→eq len 0 e)))
        (λ ok. absurd (cc ok)) (λ ok. absurd (cc ok))
        (λ within.
          let end_le : u32 (a + align_4k len) ≤ 0x08080000 = ground arith in
          let begin_le : 0x08000000 ≤ a = ground arith in
          erase_loop-Erased hal cell f4_sector_tab (hal.unlock h).0 a (u32 (a + align_4k len)) i
            part.sectors part.lock_keeps lo (omega arith)
            (inr (f4_sector_tab-InSome i (omega arith) (omega arith))))

  -- Whatever happens, an erase from the image's slot on leaves the boot loader as it was.
  pub intflash_erase_keeps_boot :
      (h : H) (a len i : ℕ)
      → 0x08010000 ≤ a
      → i < 0x08010000
      → cell (intflash_erase hal h a len).0 i ≡ cell h i
  intflash_erase_keeps_boot h a len i lo hi =
      erase_cases (λ r. cell r.0 i ≡ cell h i) h a len (λ e. refl) refl (part.unlock_keeps h i)
        (λ within.
          erase_loop-keeps hal cell f4_sector_tab (hal.unlock h).0 a (u32 (a + align_4k len)) i
            part.sectors part.lock_keeps (f4_sector_tab-AllClear a i lo hi)
          ∙ part.unlock_keeps h i)

  intflash_write-Wrote :
      (h : H) (a : ℕ) (bytes : List ℕ)
      → a + length bytes < 2 ^ 32
      → Wrote hal cell part h a bytes (intflash_write hal h a bytes)
  unfolding intflash_write
  intflash_write-Wrote h a bytes fits = elim (Bool-cases (hal.unlock h).1) [
    | inl e ↦
        let w =
          write_loop-Wrote hal cell part (suc (length bytes)) (hal.unlock h).0 a bytes (omega arith)
            fits in
        subst (Wrote hal cell part h a bytes) (sym (if_true _ _ _ e)) (record {
          keeps = λ i out. w.keeps i out ∙ part.unlock_keeps h i;
          stores =
              λ small ok was. w.stores small ok (λ i lo hi. part.unlock_keeps h i ∙ was i lo hi);
        })
    | inr e ↦
        subst (Wrote hal cell part h a bytes) (sym (if_false _ _ _ e))
          (record { keeps = λ i out. part.unlock_keeps h i; stores = λ small ok. absurd (cc ok) })
  ]

  module _ (h : H) (a : ℕ) (bytes : List ℕ) (fits : a + length bytes < 2 ^ 32) where
    -- Whatever happens, a write leaves every byte outside its range as it was.
    pub intflash_write_keeps :
        (i : ℕ) → Outside a (length bytes) i → cell (intflash_write hal h a bytes).0 i ≡ cell h i
    intflash_write_keeps i out = (intflash_write-Wrote h a bytes fits).keeps i out

    -- On a part that behaves as its manual says, a write to erased flash that reports success
    -- leaves there the bytes that it was given, whatever their number and alignment.
    pub cells-intflash_write :
        AllBelow 256 bytes
        → ((i : ℕ) → a ≤ i → i < a + length bytes → cell h i ≡ 255)
        → (intflash_write hal h a bytes).1 ≡ true
        → cells (cell (intflash_write hal h a bytes).0) a (length bytes) ≡ bytes
    cells-intflash_write small was ok =
        cells_ext (cell (intflash_write hal h a bytes).0) a (length bytes) bytes refl
          ((intflash_write-Wrote h a bytes fits).stores small ok was)
