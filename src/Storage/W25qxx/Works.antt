-- ===== src/Storage/W25qxx/Works.antt =====
-- The driver on a part whose transfers succeed and which becomes ready in time: the calls that its
-- clients make succeed.
use io_edge_hub_freertos.Common.{
  ℕ, zero, suc, ◌+◌, ◌-◌, ◌%◌, ◌<◌, ◌≤◌, ◌≡◌, refl, ap, ◌∙◌, arith, Bool, true, ◌||◌, Option, none,
  some, List, [], ◌++◌, length, ltb, leb, ◌==◌, if◌then◌else◌, ltb→lt, if_both, elim_both,
  elim_option,
}
use io_edge_hub_freertos.Config.Flash.{InPage, cells}
use io_edge_hub_freertos.Storage.W25qxx.{
  Spi, chip_size, spi_cmd_addr, wren, wait_loop, wait_not_busy, read_loop, w25_read, program_page,
  w25_write, w25_backend,
}
use io_edge_hub_freertos.Storage.W25qxx.Part.{IsW25}
use io_edge_hub_freertos.Storage.W25qxx.Refine.{w25_backend-IsNor}

module _ {C : Type 0} (spi : Spi C) where
  -- No transfer fails, and after a program command the part is ready within the 51 polls.
  pub record IsWorking : Type 0 where
    pub tx_ok : (c : C) (d : List ℕ) → (spi.spi_tx c d).1 ≡ true
    pub rx_ok : (c : C) (n : ℕ) → (bs : List ℕ) × ((spi.spi_rx c n).1 ≡ some bs)
    pub ready : (c : C) → (wait_loop spi 51 c).1 ≡ true

  module _ (works : IsWorking) where
    program_page_works : (c : C) (a : ℕ) (bs : List ℕ) → (program_page spi c a bs).1 ≡ true
    unfolding program_page wait_not_busy wren spi_cmd_addr
    program_page_works c a bs = rw (works.tx_ok, works.tx_ok, works.tx_ok) (works.ready _)

    -- A program call within a page of the part succeeds.
    pub w25_write_works :
        (c : C) (a : ℕ) (bs : List ℕ)
        → InPage a (length bs)
        → a + length bs ≤ chip_size
        → ((w25_backend spi).write c a bs).1 ≡ true
    unfolding w25_backend w25_write
    w25_write_works c a bs page fits =
        let Ok : C × Bool → Type 0 = λ r. r.1 ≡ true in
        if_both Ok (length bs == 0) _ _ (λ _. refl)
          λ some_bytes.
            if_both Ok (ltb 256 (length bs)) _ _ (λ e. absurd (ground arith))
              λ _.
                if_both Ok (ltb 256 (a % 256 + length bs)) _ _
                  (λ e. absurd (omega (arith, page, ltb→lt _ _ e)))
                  λ _.
                    if_both Ok (leb chip_size a || ltb (chip_size - a) (length bs)) _ _
                      (λ e. absurd (ground arith)) (λ _. program_page_works c a bs)

    read_loop_works :
        (fuel : ℕ) (c : C) (a len : ℕ)
        → len < fuel
        → (bs : List ℕ) × ((read_loop spi fuel c a len).1 ≡ some bs)
    unfolding read_loop spi_cmd_addr
    read_loop_works zero c a len h = absurd (omega arith)
    read_loop_works (suc fuel) c a len h =
        let n = if ltb 0xFFFF len then 0xFFFF else len in
        let c1 = spi_cmd_addr spi (spi.cs_low c) 0x03 a in
        let got = spi.spi_rx c1.0 n in
        let next = read_loop spi fuel (spi.cs_high got.0) (a + n) (len - n) in
        elim_both Gives (ltb 0 len) _ _
          (λ more.
            let (rest, later) =
              read_loop_works fuel (spi.cs_high got.0) (a + n) (len - n)
                (ground (arith, ltb→lt _ _ more)) in
            elim_both Gives c1.1 _ _
              (λ _.
                elim_option Gives got.1 _ _
                  (λ e. let (bs, q) = works.rx_ok c1.0 n in absurd (cc (e, q)))
                  (λ bytes _. (
                    bytes ++ rest,
                    ap
                        (λ (o : Option (List ℕ)). elim o as (λ _. Option (List ℕ)) [
                          | none ↦ none
                          | some more ↦ some (bytes ++ more)
                        ])
                        later,
                  )))
              (λ bad. absurd (cc (bad, works.tx_ok (spi.cs_low c) _))))
          (λ _. ([], refl))
      where
        Gives : C × Option (List ℕ) → Type 0
        Gives r = (bs : List ℕ) × (r.1 ≡ some bs)

    reads :
        (c : C) (a n : ℕ)
        → a + n ≤ chip_size
        → (bs : List ℕ) × ((w25_backend spi).read c a n ≡ some bs)
    unfolding w25_backend w25_read
    reads c a n fits =
        let Gives : C × Option (List ℕ) → Type 0 = λ r. (bs : List ℕ) × (r.1 ≡ some bs) in
        if_both Gives (n == 0) _ _ (λ _. ([], refl))
          λ some_bytes.
            if_both Gives (leb chip_size a || ltb (chip_size - a) n) _ _
              (λ e. absurd (ground (arith, some_bytes, e)))
              (λ _. read_loop_works (suc n) c a n (omega arith))

    -- A read within the part gives its bytes.
    pub w25_read_works :
        (cell : C → ℕ → ℕ)
        → IsW25 spi cell
        → (c : C) (a n : ℕ) → a + n ≤ chip_size
        → (w25_backend spi).read c a n ≡ some (cells (cell c) a n)
    w25_read_works cell part c a n fits =
        let (bs, e) = reads c a n fits in
        e ∙ ap some ((w25_backend-IsNor spi cell part).read_cells c a n bs e)
