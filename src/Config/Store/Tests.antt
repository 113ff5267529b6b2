-- ===== src/Config/Store/Tests.antt =====
-- A flash in memory, on which the laws of the store are applied.
use io_edge_hub_freertos.Common.{ℕ, ◌+◌, ◌-◌, ◌≡◌, ◌≢◌, refl, arith, Bool, true, false}
use io_edge_hub_freertos.Common.{◌&&◌, some, List, length, byte_at, ltb, leb, if◌then◌else◌}
use io_edge_hub_freertos.Config.Flash.{Flash, IsNor, cells}
use io_edge_hub_freertos.Config.Codec.{IoCfg, IsWords, decode, rec_bytes, valid, invalid, io_error}
use io_edge_hub_freertos.Config.Store.{Store, fresh, get, pick_slot, slot_read, init, save}
use io_edge_hub_freertos.Config.Store.{slot_a, slot_b, program_slot, write_pages, pages_loop}
use io_edge_hub_freertos.Config.Store.Slots.{Persisted, stored, target}
use io_edge_hub_freertos.Config.Store.Pick.{preferred, survivor}
use io_edge_hub_freertos.Config.Store.Laws.{save-Persisted, init-save, init-save_failed}

abbrev pub Ram : Type 0
Ram = ℕ → ℕ

abbrev in_range : ℕ → ℕ → ℕ → Bool
in_range a n i = leb a i && ltb i (a + n)

-- `good` is the success of every program call.
abbrev pub ram : Bool → Flash Ram
ram good = record {
  read = λ f a n. some (cells f a n);
  erase = λ f a n. (λ i. if in_range a n i then 255 else f i, true);
  write =
      λ f a bs. (λ i. if in_range a (length bs) i && good then byte_at bs (i - a) else f i, good);
}

pub ram-IsNor : (good : Bool) → IsNor (ram good) (λ f. f)
ram-IsNor good = record {
  read_cells = λ f a n bs e. cc;
  erase_keeps = λ f a n i h out. ground arith;
  erase_blank = λ f a n i h ok lo hi. ground arith;
  write_keeps = λ f a bs i h out. ground arith;
  write_blank = λ f a bs i h ok lo hi blank. ground arith;
}

abbrev pub blank : Ram
blank i = 255

abbrev sample : IoCfg
sample = record {
  di_en = 0x00FF;
  ai_en = 3;
  di_si = 100;
  ai_si = 500;
  his = 1;
  can_id = 0x0222;
  can_bps = 500;
  rs485_bps = 19200;
  slave_id = 7;
  ip0 = 10;
  ip1 = 0;
  ip2 = 0;
  ip3 = 9;
}

pub blank-Persisted : (good : Bool) → Persisted (ram good) (λ f. f) fresh blank
unfolding stored decode pick_slot
blank-Persisted good = refl

sample-IsWords : IsWords sample
sample-IsWords = omega arith

decode-ne : (bs : List ℕ) → decode bs ≢ io_error
unfolding decode
decode-ne bs = ground arith

pub ram_reads : (good : Bool) (f : Ram) (addr : ℕ) → slot_read (ram good) f addr ≢ io_error
unfolding slot_read
ram_reads good f addr = decode-ne (cells f addr 40)

abbrev after_save : Store × Ram × Bool
after_save = save (ram true) fresh blank sample

save_works : after_save.2 ≡ true
unfolding save program_slot write_pages pages_loop rec_bytes
save_works = refl

init-save_example :
    (init (ram true) after_save.1 ≡ (after_save.0, true))
    × (get (init (ram true) after_save.1).0 ≡ sample)
init-save_example =
    init-save (ram true) (λ f. f) (ram-IsNor true) fresh blank sample (blank-Persisted true)
      (omega arith) sample-IsWords save_works (ram_reads true after_save.1 slot_a)
      (ram_reads true after_save.1 slot_b)

abbrev after_failure : Store × Ram × Bool
after_failure = save (ram false) fresh blank sample

save_fails : after_failure.2 ≡ false
unfolding save program_slot write_pages pages_loop rec_bytes
save_fails = refl

torn-invalid : stored (ram false) (λ f. f) after_failure.1 (target fresh) ≡ invalid
unfolding save program_slot write_pages pages_loop rec_bytes stored decode
torn-invalid = refl

-- An erased slot costs nothing; a record that is there is loaded.
lost : survivor fresh invalid ≡ fresh
unfolding survivor
lost = refl

found : (survivor fresh (valid sample 5)).cur ≡ sample
unfolding survivor preferred
found = refl

init-save_failed_example :
    init (ram false) after_failure.1
    ≡ (survivor fresh (stored (ram false) (λ f. f) after_failure.1 (target fresh)), true)
init-save_failed_example =
    init-save_failed (ram false) (λ f. f) (ram-IsNor false) fresh blank sample
      (blank-Persisted false) save_fails (ram_reads false after_failure.1 slot_a)
      (ram_reads false after_failure.1 slot_b)

still_inited : after_save.0.inited ≡ true
unfolding save program_slot write_pages pages_loop rec_bytes
still_inited = refl

save-Persisted_example :
    Persisted (ram true) (λ f. f) after_save.0 after_save.1 × (get after_save.0 ≡ sample)
save-Persisted_example =
    save-Persisted (ram true) (λ f. f) (ram-IsNor true) fresh blank sample (blank-Persisted true)
      (omega arith) sample-IsWords save_works
