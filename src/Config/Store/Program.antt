-- ===== src/Config/Store/Program.antt =====
-- What the flash calls of one save do to the flash.
use io_edge_hub_freertos.Common.{ℕ, zero, suc, ◌+◌, ◌-◌, ◌%◌, ◌≤◌, ◌<◌, ◌≡◌, refl, sym, ap, ap₂}
use io_edge_hub_freertos.Common.{arith, inl, inr, Bool, true, false, List, [], ◌∷◌, length, take}
use io_edge_hub_freertos.Common.{
  drop, byte_at, byte_at-drop, length-take, length-drop, ◌∙◌, ltb, Bool-cases,
}
use io_edge_hub_freertos.Common.{ltb→lt, ltb→le}
use io_edge_hub_freertos.Config.Flash.{Flash, IsNor, Outside, cells}
use io_edge_hub_freertos.Config.Store.{◌>>=◌, write_pages, program_slot, slot_size}
use io_edge_hub_freertos.Config.Store.Pages.{Wrote, write_pages-Wrote, byte_at-take-drop}

bind_keeps :
    {F : Type 0} (P : F → Type 0) (m : F × Bool) (k : F → F × Bool)
    → P m.0
    → ((f : F) → P f → P (k f).0)
    → P (m >>= k).0
bind_keeps P (f, true) k h g = g f h
bind_keeps P (f, false) k h g = h

bind_true :
    {F : Type 0} (m : F × Bool) (k : F → F × Bool)
    → (m >>= k).1 ≡ true
    → (m.1 ≡ true) × ((m >>= k) ≡ k m.0)
bind_true (f, true) k h = (refl, refl)
bind_true (f, false) k h = absurd (cc)

pub cells_ext :
    (c : ℕ → ℕ) (a n : ℕ) (bs : List ℕ)
    → length bs ≡ n
    → ((j : ℕ) → j < n → c (a + j) ≡ byte_at bs j)
    → cells c a n ≡ bs
cells_ext c a zero [] e h = refl
cells_ext c a zero (b ∷ bs) e h = absurd (omega arith)
cells_ext c a (suc n) [] e h = absurd (omega arith)
cells_ext c a (suc n) (b ∷ bs) e h =
    ap₂ ◌∷◌ (ap c {x = a} {y = a + 0} (omega arith) ∙ h 0 (omega arith)) (
      cells_ext c (a + 1) n bs (omega arith)
        λ j p. ap c {x = a + 1 + j} {y = a + suc j} (omega arith) ∙ h (suc j) (omega arith))

pub cells_cong :
    (c d : ℕ → ℕ) (a n : ℕ) → ((i : ℕ) → a ≤ i → i < a + n → c i ≡ d i) → cells c a n ≡ cells d a n
cells_cong c d a zero h = refl
cells_cong c d a (suc n) h =
    ap₂ ◌∷◌ (h a (omega arith) (omega arith))
      (cells_cong c d (a + 1) n λ i p q. h i (omega arith) (omega arith))

module _ {F : Type 0} (fl : Flash F) (cell : F → ℕ → ℕ) (nor : IsNor fl cell) where
  module _ (f : F) (tgt : ℕ) (rec : List ℕ) (aligned : tgt % 4096 ≡ 0)
      (full : length rec ≡ 40) where
    abbrev erased : F × Bool
    erased = fl.erase f tgt slot_size

    abbrev header : F → F × Bool
    header g = write_pages fl g tgt (take 10 rec)

    abbrev body : F → F × Bool
    body g = write_pages fl g (tgt + 10) (take 26 (drop 10 rec))

    abbrev crc : F → F × Bool
    crc g = write_pages fl g (tgt + 36) (drop 36 rec)

    lengths :
        (length (take 10 rec) ≡ 10)
        × (length (take 26 (drop 10 rec)) ≡ 26)
        × (length (drop 36 rec) ≡ 4)
    lengths = omega (
      arith,
      length-take 10 rec,
      length-take 26 (drop 10 rec),
      length-drop 10 rec,
      length-drop 36 rec,
    )

    -- Whether it succeeds or not, the target slot alone changes.
    pub program_slot-keeps :
        (i : ℕ) → Outside tgt slot_size i → cell (program_slot fl f tgt rec).0 i ≡ cell f i
    unfolding program_slot
    program_slot-keeps i out =
        bind_keeps Same erased _ (nor.erase_keeps f tgt slot_size i (omega arith) out) λ g hg.
          bind_keeps Same (header g) _
            ((write_pages-Wrote fl cell nor g tgt (take 10 rec)).keeps i (omega (arith, lengths))
              ∙ hg)
            λ g hg.
              bind_keeps Same (body g) _
                ((write_pages-Wrote fl cell nor g (tgt + 10) (take 26 (drop 10 rec))).keeps i
                    (omega (arith, lengths))
                  ∙ hg)
                λ g hg.
                  (write_pages-Wrote fl cell nor g (tgt + 36) (drop 36 rec)).keeps i
                    (omega (arith, lengths))
                  ∙ hg
      where
        Same : F → Type 0
        Same g = cell g i ≡ cell f i

    -- The three programs in a row, over a slot that is erased.
    module _ (g : F) (blank : (i : ℕ) → tgt ≤ i → i < tgt + 40 → cell g i ≡ 255) where
      abbrev g1 : F
      g1 = (header g).0

      abbrev g2 : F
      g2 = (body g1).0

      wrote1 : Wrote fl cell nor g tgt (take 10 rec) 0 (header g)
      wrote1 = write_pages-Wrote fl cell nor g tgt (take 10 rec)

      wrote2 : Wrote fl cell nor g1 (tgt + 10) (take 26 (drop 10 rec)) 0 (body g1)
      wrote2 = write_pages-Wrote fl cell nor g1 (tgt + 10) (take 26 (drop 10 rec))

      wrote3 : Wrote fl cell nor g2 (tgt + 36) (drop 36 rec) 0 (crc g2)
      wrote3 = write_pages-Wrote fl cell nor g2 (tgt + 36) (drop 36 rec)

      header_stored :
          (header g).1 ≡ true → (j : ℕ) → j < 10 → cell (crc g2).0 (tgt + j) ≡ byte_at rec j
      header_stored done j p =
          wrote3.keeps (tgt + j) (inl (omega arith))
          ∙ wrote2.keeps (tgt + j) (inl (omega arith))
          ∙ wrote1.stores done (λ i lo hi. blank i (omega arith) (omega (arith, lengths))) (tgt + j)
              (omega arith) (omega (arith, lengths))
          ∙ byte_at-take-drop 0 10 (tgt + j - tgt) rec (omega arith)
          ∙ ap (byte_at rec) {x = 0 + (tgt + j - tgt)} {y = j} (omega arith)

      body_stored :
          (body g1).1 ≡ true → (j : ℕ) → 10 ≤ j → j < 36 → cell (crc g2).0 (tgt + j) ≡ byte_at rec j
      body_stored done j lo p =
          wrote3.keeps (tgt + j) (inl (omega arith))
          ∙ wrote2.stores done
              (λ i l h.
                wrote1.keeps i (inr (omega (arith, lengths)))
                ∙ blank i (omega arith) (omega (arith, lengths)))
              (tgt + j) (omega arith) (omega (arith, lengths))
          ∙ byte_at-take-drop 10 26 (tgt + j - (tgt + 10)) rec (omega arith)
          ∙ ap (byte_at rec) {x = 10 + (tgt + j - (tgt + 10))} {y = j} (omega arith)

      crc_stored :
          (crc g2).1 ≡ true → (j : ℕ) → 36 ≤ j → j < 40 → cell (crc g2).0 (tgt + j) ≡ byte_at rec j
      crc_stored done j lo p =
          wrote3.stores done
            (λ i l h.
              wrote2.keeps i (inr (omega (arith, lengths)))
              ∙ wrote1.keeps i (inr (omega (arith, lengths)))
              ∙ blank i (omega arith) (omega (arith, lengths)))
            (tgt + j) (omega arith) (omega (arith, lengths))
          ∙ byte_at-drop 36 (tgt + j - (tgt + 36)) rec
          ∙ ap (byte_at rec) {x = 36 + (tgt + j - (tgt + 36))} {y = j} (omega arith)

    -- When it succeeds, the slot holds the record.
    pub program_slot-stores :
        (program_slot fl f tgt rec).1 ≡ true
        → cells (cell (program_slot fl f tgt rec).0) tgt 40 ≡ rec
    unfolding program_slot
    program_slot-stores done =
        let s1 = bind_true erased _ done in
        let s2 = bind_true (header erased.0) _ (ap (λ r. r.1) (sym s1.1) ∙ done) in
        let g1 : F = (header erased.0).0 in
        let e12 : program_slot fl f tgt rec ≡ (body g1 >>= crc) = s1.1 ∙ s2.1 in
        let s3 = bind_true (body g1) crc (ap (λ r. r.1) (sym e12) ∙ done) in
        let g2 : F = (body g1).0 in
        let e : program_slot fl f tgt rec ≡ crc g2 = e12 ∙ s3.1 in
        rw e (
          cells_ext (cell (crc g2).0) tgt 40 rec full λ j p. elim (Bool-cases (ltb j 10)) [
            | inl lo ↦ header_stored erased.0 (blank s1.0) s2.0 j (ltb→lt j 10 lo)
            | inr hi ↦ elim (Bool-cases (ltb j 36)) [
              | inl mid ↦
                  body_stored erased.0 (blank s1.0) s3.0 j (ltb→le j 10 hi) (ltb→lt j 36 mid)
              | inr top ↦
                  crc_stored erased.0 (blank s1.0) (ap (λ r. r.1) (sym e) ∙ done) j
                    (ltb→le j 36 top) p
            ]
          ])
      where
        blank : erased.1 ≡ true → (i : ℕ) → tgt ≤ i → i < tgt + 40 → cell erased.0 i ≡ 255
        blank ok i lo hi = nor.erase_blank f tgt slot_size i (omega arith) ok lo (omega arith)
