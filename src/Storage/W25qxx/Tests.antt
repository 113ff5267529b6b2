-- ===== src/Storage/W25qxx/Tests.antt =====
-- A part in memory that goes by the bytes of a command when the chip select is released.
use io_edge_hub_freertos.Common.{
  ℕ, zero, suc, u8, ◌>>◌, sym, ◌+◌, ◌-◌, ◌*◌, ◌<◌, ◌≤◌, ◌≡◌, refl, ap, ◌∙◌, arith, true, ◌&&◌, some,
  List, [], ◌∷◌, ◌++◌, length, drop, byte_at, ltb, leb, ◌==◌, if◌then◌else◌,
}
use io_edge_hub_freertos.Config.Flash.{Flash, IsNor, InPage, Outside, cells}
use io_edge_hub_freertos.Storage.W25qxx.{Spi, chip_size, spi_cmd_addr, wren, wait_loop, w25_backend}
use io_edge_hub_freertos.Storage.W25qxx.Part.{Erases, sector, block32, block64, IsW25}
use io_edge_hub_freertos.Storage.W25qxx.Works.{IsWorking, w25_read_works, w25_write_works}
use io_edge_hub_freertos.Storage.W25qxx.Refine.{w25_backend-IsNor}

pub record Chip : Type 0 where
  pub mem : ℕ → ℕ
  pub got : List ℕ

abbrev address : List ℕ → ℕ
address got = byte_at got 1 * 65536 + byte_at got 2 * 256 + byte_at got 3

abbrev fill : ℕ → ℕ → (ℕ → ℕ) → ℕ → ℕ
fill a n mem i = if leb a i && ltb i (a + n) then 255 else mem i

abbrev store : ℕ → List ℕ → (ℕ → ℕ) → ℕ → ℕ
store a bs mem i = if leb a i && ltb i (a + length bs) then byte_at bs (i - a) else mem i

abbrev obey : List ℕ → (ℕ → ℕ) → ℕ → ℕ
obey got mem =
    if byte_at got 0 == 0x02
    then store (address got) (drop 4 got) mem
    else if byte_at got 0 == 0x20
    then fill (address got) 0x1000 mem
    else if byte_at got 0 == 0x52
    then fill (address got) 0x8000 mem
    else if byte_at got 0 == 0xD8
    then fill (address got) 0x10000 mem
    else mem

-- The status is never busy.
abbrev sim : Spi Chip
sim = record {
  cs_low = λ c. record c { got = [] };
  cs_high = λ c. record c { mem = obey c.got c.mem };
  spi_tx = λ c d. (record c { got = c.got ++ d }, true);
  spi_rx =
      λ c n. (c, some (if byte_at c.got 0 == 0x03 then cells c.mem (address c.got) n else 0 ∷ []));
  delay = λ c. c;
}

-- The bytes of an address in a command.
abbrev sent : ℕ → ℕ
sent a = u8 (a >> 16) * 65536 + u8 (a >> 8) * 256 + u8 a

sent_back : (a n : ℕ) → 0 < n → a + n ≤ chip_size → sent a ≡ a
sent_back a n pos fits = omega arith

store_out :
    (a : ℕ) (bs : List ℕ) (mem : ℕ → ℕ) (i : ℕ) → Outside a (length bs) i → store a bs mem i ≡ mem i
store_out a bs mem i out = ground arith

reads : (mem : ℕ → ℕ) (a n : ℕ) → a + n ≤ chip_size → cells mem (sent a) n ≡ cells mem a n
reads mem a zero fits = refl
reads mem a (suc n) fits = ap (λ k. cells mem k (suc n)) (sent_back a (suc n) (omega arith) fits)

stores_nothing : (a : ℕ) (mem : ℕ → ℕ) (i : ℕ) → store a [] mem i ≡ mem i
stores_nothing a mem i = ground arith

keeps :
    (a : ℕ) (bs : List ℕ) (mem : ℕ → ℕ) (i : ℕ)
    → a + length bs ≤ chip_size
    → Outside a (length bs) i
    → store (sent a) bs mem i ≡ mem i
keeps a [] mem i fits out = stores_nothing (sent a) mem i
keeps a (b ∷ bs) mem i fits out =
    ap (λ k. store k (b ∷ bs) mem i) (sent_back a (length (b ∷ bs)) (omega arith) fits)
    ∙ store_out a (b ∷ bs) mem i out

stores :
    (a : ℕ) (bs : List ℕ) (mem : ℕ → ℕ) (i : ℕ)
    → a + length bs ≤ chip_size
    → a ≤ i
    → i < a + length bs
    → store (sent a) bs mem i ≡ byte_at bs (i - a)
stores a bs mem i fits lo hi =
    ap (λ k. store k bs mem i) (sent_back a (length bs) (omega arith) fits) ∙ ground arith

fill_out : (a n : ℕ) (mem : ℕ → ℕ) (i : ℕ) → Outside a n i → fill a n mem i ≡ mem i
fill_out a n mem i out = ground arith

fill_in : (a n : ℕ) (mem : ℕ → ℕ) (i : ℕ) → a ≤ i → i < a + n → fill a n mem i ≡ 255
fill_in a n mem i lo hi = ground arith

-- What an erase command does.
fills :
    (c : Chip) (a cmd size i : ℕ)
    → Erases cmd size
    → a + size ≤ chip_size
    → (obey (cmd ∷ u8 (a >> 16) ∷ u8 (a >> 8) ∷ u8 a ∷ []) c.mem i) ≡ fill a size c.mem i
fills c a _ _ i sector fits =
    ap (λ k. fill k 0x1000 c.mem i) (sent_back a 0x1000 (omega arith) fits)
fills c a _ _ i block32 fits =
    ap (λ k. fill k 0x8000 c.mem i) (sent_back a 0x8000 (omega arith) fits)
fills c a _ _ i block64 fits =
    ap (λ k. fill k 0x10000 c.mem i) (sent_back a 0x10000 (omega arith) fits)

sim-IsW25 : IsW25 sim (λ c. c.mem)
unfolding spi_cmd_addr wren
sim-IsW25 = record {
  read_gives = λ c a n bs fits ok e.
      let same : cells c.mem (sent a) n ≡ bs = cc e in sym same ∙ reads c.mem a n fits;
  read_keeps = λ c a n i. refl;
  wren_keeps = λ c i. refl;
  status_keeps = λ c i. refl;
  status_read_keeps = λ c i. refl;
  delay_keeps = λ c i. refl;
  command_keeps = λ c a i. stores_nothing (sent a) c.mem i;
  program_keeps = λ c a bs i page fits out. keeps a bs c.mem i fits out;
  program_stores = λ c a bs n i page fits e1 e2 e3 e4 lo hi blank. stores a bs c.mem i fits lo hi;
  erase_keeps = λ c a cmd size i kind al fits out.
      fills c a cmd size i kind fits ∙ fill_out a size c.mem i out;
  erase_blanks = λ c a cmd size n i kind al fits e1 e2 e3 lo hi.
      fills c a cmd size i kind fits ∙ fill_in a size c.mem i lo hi;
}

w25_backend-IsNor_example : IsNor (w25_backend sim) (λ c. c.mem)
w25_backend-IsNor_example = w25_backend-IsNor sim (λ c. c.mem) sim-IsW25

-- The driver over this part, for the clients of the flash.
abbrev pub chip_flash : Flash Chip
chip_flash = w25_backend sim

abbrev pub blank_chip : Chip
blank_chip = record { mem = λ i. 255; got = [] }

pub chip_flash-IsNor : IsNor chip_flash (λ c. c.mem)
chip_flash-IsNor = w25_backend-IsNor sim (λ c. c.mem) sim-IsW25

sim-IsWorking : IsWorking sim
unfolding wait_loop
sim-IsWorking = record {
  tx_ok = λ c d. refl;
  rx_ok = λ c n. (if byte_at c.got 0 == 0x03 then cells c.mem (address c.got) n else 0 ∷ [], refl);
  ready = λ c. refl;
}

pub chip_reads :
    (c : Chip) (a n : ℕ) → a + n ≤ 0x70000 → chip_flash.read c a n ≡ some (cells c.mem a n)
chip_reads c a n fits = w25_read_works sim sim-IsWorking (λ c. c.mem) sim-IsW25 c a n (omega arith)

pub chip_writes :
    (c : Chip) (a : ℕ) (bs : List ℕ)
    → InPage a (length bs)
    → a + length bs ≤ 0x70000
    → (chip_flash.write c a bs).1 ≡ true
chip_writes c a bs page fits = w25_write_works sim sim-IsWorking c a bs page (omega arith)
