-- ===== src/Storage/W25qxx/Refine.antt =====
-- The driver offers what src/include/io_flash.h promises.
use io_edge_hub_freertos.Common.{
  ℕ, zero, suc, ◌+◌, ◌-◌, ◌%◌, ◌<◌, ◌≤◌, ◌≡◌, refl, sym, ap, ap₂, ◌∙◌, arith, Bool, true, false,
  inl, inr,
}
use io_edge_hub_freertos.Common.{
  ◌⊎◌, not, ◌&&◌, ◌||◌, Option, none, some, List, [], ◌∷◌, ◌++◌, length, byte_at, bit_and, ltb, leb,
  ◌==◌,
}
use io_edge_hub_freertos.Common.{
  if◌then◌else◌, Bool-cases, if_both, elim_both, elim_option, ltb→lt, ltb→le,
}
use io_edge_hub_freertos.Config.Flash.{IsNor, InPage, InSectors, Outside, cells}
use io_edge_hub_freertos.Config.Store.Program.{cells_cong}
use io_edge_hub_freertos.Fw.Upgrade.Image.{cells-add}
use io_edge_hub_freertos.Storage.W25qxx.{
  Spi, EraseUnit, chip_size, pick, spi_cmd_addr, wren, wait_loop, wait_not_busy, read_loop,
  w25_read, program_page, w25_write, erase_one, erase_loop, w25_erase, w25_backend,
}
use io_edge_hub_freertos.Storage.W25qxx.Part.{
  Erases, sector, block32, block64, programmed, erased, IsW25,
}

-- The unit that is picked is aligned, is in the range, and is one that the part has.
record IsUnit (addr len : ℕ) (u : EraseUnit) : Type 0 where
  erases : Erases u.cmd u.chunk
  aligned : addr % u.chunk ≡ 0
  within : u.chunk ≤ len
  whole : u.chunk % 0x1000 ≡ 0
  some_bytes : 0 < u.chunk

pick-IsUnit :
    (addr len : ℕ)
    → addr % 0x1000 ≡ 0
    → len % 0x1000 ≡ 0
    → 0 < len
    → IsUnit addr len (pick addr len)
unfolding pick
pick-IsUnit addr len al whole pos =
    if_both (IsUnit addr len) ((addr % 0x10000 == 0) && leb 0x10000 len) _ _
      (λ e. record {
        erases = block64;
        aligned = ground arith;
        within = ground arith;
        whole = refl;
        some_bytes = omega arith;
      })
      λ _.
        if_both (IsUnit addr len) ((addr % 0x8000 == 0) && leb 0x8000 len) _ _
          (λ e. record {
            erases = block32;
            aligned = ground arith;
            within = ground arith;
            whole = refl;
            some_bytes = omega arith;
          })
          (λ e. record {
            erases = sector;
            aligned = al;
            within = omega arith;
            whole = refl;
            some_bytes = omega arith;
          })

denied : {b : Bool} → not b ≡ false → b ≡ true
denied {b} h = ground arith

not_inside : (a n i : ℕ) → (leb a i && ltb i (a + n)) ≡ false → Outside a n i
not_inside a n i h = elim (Bool-cases (ltb i a)) [
  | inl low ↦ inl (ground arith)
  | inr high ↦ inr (ground arith)
]

module _ {C : Type 0} (spi : Spi C) (cell : C → ℕ → ℕ) (part : IsW25 spi cell) where
  wait_loop_keeps : (n : ℕ) (c : C) (i : ℕ) → cell (wait_loop spi n c).0 i ≡ cell c i
  unfolding wait_loop
  wait_loop_keeps zero c i = refl
  wait_loop_keeps (suc n) c i =
      let Keeps : C × Bool → Type 0 = λ r. cell r.0 i ≡ cell c i in
      let c1 = (spi.spi_tx (spi.cs_low c) (0x05 ∷ [])).0 in
      let c2 = (spi.spi_rx c1 1).0 in
      elim_both Keeps (spi.spi_tx (spi.cs_low c) (0x05 ∷ [])).1 _ _
        (λ _.
          elim_option Keeps (spi.spi_rx c1 1).1 _ _ (λ _. part.status_read_keeps c i)
            λ bytes _.
              elim_both Keeps (bit_and (byte_at bytes 0) 0x01 == 0) _ _
                (λ _. part.status_read_keeps c i)
                (λ _.
                  wait_loop_keeps n (spi.delay (spi.cs_high c2)) i
                  ∙ part.delay_keeps (spi.cs_high c2) i
                  ∙ part.status_read_keeps c i))
        (λ _. part.status_keeps c i)

  erase_one_keeps :
      (c : C) (a cmd size t i : ℕ)
      → Erases cmd size
      → a % size ≡ 0
      → a + size ≤ chip_size
      → Outside a size i
      → cell (erase_one spi c a cmd t).0 i ≡ cell c i
  unfolding erase_one wait_not_busy
  erase_one_keeps c a cmd size t i kind al fits out =
      let Keeps : C × Bool → Type 0 = λ r. cell r.0 i ≡ cell c i in
      if_both Keeps (not (wren spi c).1) _ _ (λ _. part.wren_keeps c i)
        λ _.
          if_both Keeps (not (spi_cmd_addr spi (spi.cs_low (wren spi c).0) cmd a).1) _ _
            (λ _. part.erase_keeps c a cmd size i kind al fits out)
            (λ _.
              wait_loop_keeps (suc t) (erased spi cell c a cmd) i
              ∙ part.erase_keeps c a cmd size i kind al fits out)

  erase_one_blanks :
      (c : C) (a cmd size t i : ℕ)
      → Erases cmd size
      → a % size ≡ 0
      → a + size ≤ chip_size
      → a ≤ i
      → i < a + size
      → (erase_one spi c a cmd t).1 ≡ true
      → cell (erase_one spi c a cmd t).0 i ≡ 255
  unfolding erase_one wait_not_busy
  erase_one_blanks c a cmd size t i kind al fits lo hi =
      let Blanks : C × Bool → Type 0 = λ r. r.1 ≡ true → cell r.0 i ≡ 255 in
      if_both Blanks (not (wren spi c).1) _ _ (λ _ ok. absurd (cc ok))
        λ on.
          if_both Blanks (not (spi_cmd_addr spi (spi.cs_low (wren spi c).0) cmd a).1) _ _
            (λ _ ok. absurd (cc ok))
            (λ sent ok.
              wait_loop_keeps (suc t) (erased spi cell c a cmd) i
              ∙ part.erase_blanks c a cmd size (suc t) i kind al fits (denied on) (denied sent) ok
                  lo hi)

  erase_loop_keeps :
      (fuel : ℕ) (c : C) (a len i : ℕ)
      → InSectors a len
      → a + len ≤ chip_size
      → Outside a len i
      → cell (erase_loop spi fuel c a len).0 i ≡ cell c i
  unfolding erase_loop
  erase_loop_keeps zero c a len i al fits out = refl
  erase_loop_keeps (suc fuel) c a len i al fits out =
      let Keeps : C × Bool → Type 0 = λ r. cell r.0 i ≡ cell c i in
      let u = pick a len in
      let r = erase_one spi c a u.cmd u.tmo in
      elim_both Keeps (ltb 0 len) _ _
        (λ more.
          let v = pick-IsUnit a len al.0 al.1 (ltb→lt 0 len more) in
          let one =
            erase_one_keeps c a u.cmd u.chunk u.tmo i v.erases v.aligned (omega (arith, v.within))
              (elim out [ inl p ↦ inl p | inr p ↦ inr (omega (arith, v.within)) ]) in
          elim_both Keeps r.1 _ _
            (λ _.
              erase_loop_keeps fuel r.0 (a + u.chunk) (len - u.chunk) i
                (omega (arith, v.whole, v.within), omega (arith, v.whole, v.within))
                (omega (arith, v.within))
                (elim out [ inl p ↦ inl (omega arith) | inr p ↦ inr (omega (arith, v.within)) ])
              ∙ one)
            (λ _. one))
        (λ _. refl)

  erase_loop_blanks :
      (fuel : ℕ) (c : C) (a len i : ℕ)
      → InSectors a len
      → a + len ≤ chip_size
      → (cell c i ≡ 255) ⊎ ((a ≤ i) × (i < a + len))
      → (erase_loop spi fuel c a len).1 ≡ true
      → cell (erase_loop spi fuel c a len).0 i ≡ 255
  unfolding erase_loop
  erase_loop_blanks zero c a len i al fits was = λ ok. absurd (cc ok)
  erase_loop_blanks (suc fuel) c a len i al fits was =
      let Blanks : C × Bool → Type 0 = λ r. r.1 ≡ true → cell r.0 i ≡ 255 in
      let u = pick a len in
      let r = erase_one spi c a u.cmd u.tmo in
      elim_both Blanks (ltb 0 len) _ _
        (λ more.
          let v = pick-IsUnit a len al.0 al.1 (ltb→lt 0 len more) in
          elim_both Blanks r.1 _ _
            (λ done.
              erase_loop_blanks fuel r.0 (a + u.chunk) (len - u.chunk) i
                (omega (arith, v.whole, v.within), omega (arith, v.whole, v.within))
                (omega (arith, v.within))
                (elim (Bool-cases (leb a i && ltb i (a + u.chunk))) [
                  | inl now ↦ inl (
                      erase_one_blanks c a u.cmd u.chunk u.tmo i v.erases v.aligned
                        (omega (arith, v.within)) (ground arith) (ground arith) done)
                  | inr later ↦
                      let out = not_inside a u.chunk i later in
                      elim was [
                        | inl blank ↦ inl (
                            erase_one_keeps c a u.cmd u.chunk u.tmo i v.erases v.aligned
                              (omega (arith, v.within)) out
                            ∙ blank)
                        | inr inside ↦ inr (elim out [
                          | inl p ↦ absurd (omega arith)
                          | inr p ↦ (p, omega (arith, v.within))
                        ])
                      ]
                ]))
            (λ _ ok. absurd (cc ok)))
        (λ none_left ok. elim was [
          | inl blank ↦ blank
          | inr inside ↦ absurd (omega (arith, ltb→le 0 len none_left))
        ])

  program_page_keeps :
      (c : C) (a : ℕ) (bs : List ℕ) (i : ℕ)
      → InPage a (length bs)
      → a + length bs ≤ chip_size
      → Outside a (length bs) i
      → cell (program_page spi c a bs).0 i ≡ cell c i
  unfolding program_page wait_not_busy
  program_page_keeps c a bs i page fits out =
      let Keeps : C × Bool → Type 0 = λ r. cell r.0 i ≡ cell c i in
      let c2 = spi_cmd_addr spi (spi.cs_low (wren spi c).0) 0x02 a in
      if_both Keeps (not (wren spi c).1) _ _ (λ _. part.wren_keeps c i)
        λ _.
          if_both Keeps (not c2.1) _ _ (λ _. part.command_keeps c a i)
            λ _.
              if_both Keeps (not (spi.spi_tx c2.0 bs).1) _ _
                (λ _. part.program_keeps c a bs i page fits out)
                (λ _.
                  wait_loop_keeps 51 (programmed spi cell c a bs) i
                  ∙ part.program_keeps c a bs i page fits out)

  program_page_stores :
      (c : C) (a : ℕ) (bs : List ℕ) (i : ℕ)
      → InPage a (length bs)
      → a + length bs ≤ chip_size
      → a ≤ i
      → i < a + length bs
      → cell c i ≡ 255
      → (program_page spi c a bs).1 ≡ true
      → cell (program_page spi c a bs).0 i ≡ byte_at bs (i - a)
  unfolding program_page wait_not_busy
  program_page_stores c a bs i page fits lo hi blank =
      let Stores : C × Bool → Type 0 = λ r. r.1 ≡ true → cell r.0 i ≡ byte_at bs (i - a) in
      let c2 = spi_cmd_addr spi (spi.cs_low (wren spi c).0) 0x02 a in
      if_both Stores (not (wren spi c).1) _ _ (λ _ ok. absurd (cc ok))
        λ on.
          if_both Stores (not c2.1) _ _ (λ _ ok. absurd (cc ok))
            λ begun.
              if_both Stores (not (spi.spi_tx c2.0 bs).1) _ _ (λ _ ok. absurd (cc ok))
                (λ sent ok.
                  wait_loop_keeps 51 (programmed spi cell c a bs) i
                  ∙ part.program_stores c a bs 51 i page fits (denied on) (denied begun)
                      (denied sent) ok lo hi blank)

  -- What a read gives, when it gives something.
  Gives : C → ℕ → ℕ → C × Option (List ℕ) → Type 0
  Gives c a len r = (bs : List ℕ) → r.1 ≡ some bs → bs ≡ cells (cell c) a len

  read_loop-Gives :
      (fuel : ℕ) (c : C) (a len : ℕ)
      → a + len ≤ chip_size
      → Gives c a len (read_loop spi fuel c a len)
  unfolding read_loop Gives
  read_loop-Gives zero c a len fits = λ bs e. absurd (cc e)
  read_loop-Gives (suc fuel) c a len fits =
      let n = if ltb 0xFFFF len then 0xFFFF else len in
      let small : n ≤ len = ground arith in
      let c1 = spi_cmd_addr spi (spi.cs_low c) 0x03 a in
      let got = spi.spi_rx c1.0 n in
      let next = read_loop spi fuel (spi.cs_high got.0) (a + n) (len - n) in
      elim_both (Gives c a len) (ltb 0 len) _ _
        (λ more.
          elim_both (Gives c a len) c1.1 _ _
            (λ sent.
              elim_option (Gives c a len) got.1 _ _ (λ _ bs e. absurd (cc e))
                λ bytes read.
                  elim_option
                    (λ (o : Option (List ℕ)).
                      (bs : List ℕ) → o ≡ some bs → bs ≡ cells (cell c) a len)
                    next.1 none (λ rest. some (bytes ++ rest)) (λ _ bs e. absurd (cc e))
                    (λ rest later bs e.
                      let joined : bytes ++ rest ≡ bs = cc e in
                      sym joined
                      ∙ ap₂ ◌++◌ (part.read_gives c a n bytes (omega (arith, small)) sent read) (
                          read_loop-Gives fuel (spi.cs_high got.0) (a + n) (len - n)
                            (omega (arith, small)) rest later
                          ∙ cells_cong (cell (spi.cs_high got.0)) (cell c) (a + n) (len - n)
                              (λ i lo hi. part.read_keeps c a n i))
                      ∙ sym (cells-add (cell c) a n (len - n))
                      ∙ ap (cells (cell c) a) {x = n + (len - n)} {y = len} (omega (arith, small))))
            (λ _ bs e. absurd (cc e)))
        (λ none_left bs e.
          let empty : [] ≡ bs = cc e in
          sym empty
          ∙ ap (cells (cell c) a) {x = 0} {y = len} (omega (arith, ltb→le 0 len none_left)))

  fits_in : (a len : ℕ) → (leb chip_size a || ltb (chip_size - a) len) ≡ false → a + len ≤ chip_size
  fits_in a len h = ground arith

  -- On a part that behaves as its data sheet says, the driver is the NOR flash that its clients are
  -- promised: its reads, erases and page programs satisfy every law of the interface, at any
  -- address, within the part or not.
  pub w25_backend-IsNor : IsNor (w25_backend spi) cell
  unfolding w25_backend w25_read w25_erase w25_write Gives
  w25_backend-IsNor = record {
    read_cells = λ c a len.
        if_both (Gives c a len) (len == 0) _ _
          (λ e bs q.
            let empty : [] ≡ bs = cc q in
            sym empty ∙ ap (cells (cell c) a) {x = 0} {y = len} (ground arith))
          λ _.
            if_both (Gives c a len) (leb chip_size a || ltb (chip_size - a) len) _ _
              (λ _ bs q. absurd (cc q))
              (λ within. read_loop-Gives (suc len) c a len (fits_in a len within));
    erase_keeps = λ c a n i al out.
        let Keeps : C × Bool → Type 0 = λ r. cell r.0 i ≡ cell c i in
        if_both Keeps (n == 0 || (not (a % 0x1000 == 0) || not (n % 0x1000 == 0))) _ _ (λ _. refl)
          λ _.
            if_both Keeps (leb chip_size a || ltb (chip_size - a) n) _ _ (λ _. refl)
              (λ within. erase_loop_keeps (suc n) c a n i al (fits_in a n within) out);
    erase_blank = λ c a n i al ok lo hi.
        let Blanks : C × Bool → Type 0 = λ r. r.1 ≡ true → cell r.0 i ≡ 255 in
        if_both Blanks (n == 0 || (not (a % 0x1000 == 0) || not (n % 0x1000 == 0))) _ _
          (λ _ q. absurd (cc q))
          (λ _.
            if_both Blanks (leb chip_size a || ltb (chip_size - a) n) _ _ (λ _ q. absurd (cc q))
              (λ within. erase_loop_blanks (suc n) c a n i al (fits_in a n within) (inr (lo, hi))))
          ok;
    write_keeps = λ c a bs i page out.
        let Keeps : C × Bool → Type 0 = λ r. cell r.0 i ≡ cell c i in
        if_both Keeps (length bs == 0) _ _ (λ _. refl)
          λ _.
            if_both Keeps (ltb 256 (length bs)) _ _ (λ _. refl)
              λ _.
                if_both Keeps (ltb 256 (a % 256 + length bs)) _ _ (λ _. refl)
                  λ _.
                    if_both Keeps (leb chip_size a || ltb (chip_size - a) (length bs)) _ _
                      (λ _. refl)
                      (λ within.
                        program_page_keeps c a bs i page (fits_in a (length bs) within) out);
    write_blank = λ c a bs i page ok lo hi blank.
        let Stores : C × Bool → Type 0 = λ r. r.1 ≡ true → cell r.0 i ≡ byte_at bs (i - a) in
        if_both Stores (length bs == 0) _ _ (λ e q. absurd (ground arith))
          (λ _.
            if_both Stores (ltb 256 (length bs)) _ _ (λ _ q. absurd (cc q))
              λ _.
                if_both Stores (ltb 256 (a % 256 + length bs)) _ _ (λ _ q. absurd (cc q))
                  λ _.
                    if_both Stores (leb chip_size a || ltb (chip_size - a) (length bs)) _ _
                      (λ _ q. absurd (cc q))
                      (λ within.
                        program_page_stores c a bs i page (fits_in a (length bs) within) lo hi
                          blank))
          ok;
  }
