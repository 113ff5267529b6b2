-- ===== src/Storage/IntFlash/Tests.antt =====
-- The microcontroller's flash in memory.
use io_edge_hub_freertos.Common.{
  ℕ, ◌+◌, ◌-◌, ◌*◌, ◌≡◌, refl, arith, true, ◌&&◌, List, [], ◌∷◌, get_or, u8,
}
use io_edge_hub_freertos.Common.{◌>>◌, ltb, leb, if◌then◌else◌}
use io_edge_hub_freertos.Util.Bytes.{get_le32}
use io_edge_hub_freertos.Config.Flash.{cells}
use io_edge_hub_freertos.Storage.IntFlash.{
  program_next, Hal, Sector, f4_sector_tab, IsSector, IsIntFlash, intflash_erase, intflash_write,
}
use io_edge_hub_freertos.Storage.IntFlash.Laws.{intflash_erase-blank, cells-intflash_write}

abbrev pub Cells : Type 0
Cells = ℕ → ℕ

abbrev whole : Sector
whole = record { addr = 0; size = 0; sector = 0 }

abbrev pub hal : Hal Cells
hal = record {
  unlock = λ f. (f, true);
  lock = λ f. (f, true);
  erase_sector = λ f n.
      let x = get_or f4_sector_tab n whole in
      (λ i. if leb x.addr i && ltb i (x.addr + x.size) then 255 else f i, true);
  program_word =
      λ f a w. (λ i. if leb a i && ltb i (a + 4) then u8 (w >> (8 * (i - a))) else f i, true);
  program_byte = λ f a v. (λ i. if leb a i && ltb i (a + 1) then v else f i, true);
}

sector-IsSector : (x : Sector) → get_or f4_sector_tab x.sector whole ≡ x → IsSector hal (λ f. f) x
sector-IsSector x e = record {
  keeps = λ f i out. ground arith;
  blank = λ f i ok lo hi. ground arith;
}

pub hal-IsIntFlash : IsIntFlash hal (λ f. f)
hal-IsIntFlash = record {
  sectors = (
    sector-IsSector _ refl,
    (
      sector-IsSector _ refl,
      (
        sector-IsSector _ refl,
        (
          sector-IsSector _ refl,
          (
            sector-IsSector _ refl,
            (sector-IsSector _ refl, (sector-IsSector _ refl, (sector-IsSector _ refl, tt))),
          ),
        ),
      ),
    ),
  );
  unlock_keeps = λ f i. refl;
  lock_keeps = λ f i. refl;
  word_keeps = λ f a w i out. ground arith;
  word_blank = λ f a w k al ok p was. let e : a + k - a ≡ k = omega arith in rw e (ground arith);
  byte_keeps = λ f a v i out. ground arith;
  byte_blank = λ f a v ok was p. ground arith;
}

abbrev zeros : Cells
zeros i = 0

abbrev ones : Cells
ones i = 255

intflash_erase-blank_example : (intflash_erase hal zeros 0x08010000 5000).0 0x08010010 ≡ 255
unfolding intflash_erase
intflash_erase-blank_example =
    intflash_erase-blank hal (λ f. f) hal-IsIntFlash zeros 0x08010000 5000 0x08010010 (omega arith)
      (omega arith) (omega arith) refl

-- Seven bytes from an odd address on: three bytes to the next word, and a word.
abbrev seven : List ℕ
seven = 1 ∷ 2 ∷ 3 ∷ 4 ∷ 5 ∷ 6 ∷ 7 ∷ []

write_ok : (intflash_write hal ones 0x08010001 seven).1 ≡ true
unfolding intflash_write program_next get_le32
write_ok = refl

cells-intflash_write_example :
    cells (intflash_write hal ones 0x08010001 seven).0 0x08010001 7 ≡ seven
cells-intflash_write_example =
    cells-intflash_write hal (λ f. f) hal-IsIntFlash ones 0x08010001 seven (omega arith)
      (omega arith) (λ i lo hi. refl) write_ok
