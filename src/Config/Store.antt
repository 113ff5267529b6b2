-- ===== src/Config/Store.antt =====
-- The operations of config_store.c over a flash. The file's statics are the record `Store`; the
-- pointer `iof` is the flash given to each operation.
pub mod Pages
pub mod Program
pub mod Pick
pub mod Slots
pub mod Laws
pub mod Tests
use io_edge_hub_freertos.Common.{ℕ, zero, suc, ◌+◌, ◌-◌, Bool, true, false, not, none, some}
use io_edge_hub_freertos.Common.{List, bit_and, take, drop, length, u32, ltb, leb, ◌==◌}
use io_edge_hub_freertos.Common.{if◌then◌else◌}
use io_edge_hub_freertos.Config.Flash.{Flash}
use io_edge_hub_freertos.Config.Codec.{IoCfg, get_defaults, rec_bytes}
use io_edge_hub_freertos.Config.Codec.{SlotRead, valid, invalid, io_error, decode}

-- `STORAGE_OFFSET`, and the second slot behind the first
abbrev pub slot_a : ℕ
slot_a = 0xE0000

abbrev pub slot_size : ℕ
slot_size = 0x8000

abbrev pub slot_b : ℕ
slot_b = slot_a + slot_size

pub record Store : Type 0 where
  pub cur : IoCfg
  pub cur_gen : ℕ
  pub cur_slot : ℕ
  pub inited : Bool

-- `config_store_get`
unfoldable pub get : Store → IoCfg
get st = if not st.inited then get_defaults else st.cur

-- The statics after `config_store_init` has put the defaults there.
abbrev pub fresh : Store
fresh = record { cur = get_defaults; cur_gen = 0; cur_slot = 0; inited = true }

-- The choice at the end of `config_store_init`; the second component is its success.
unfoldable pub pick_slot : SlotRead → SlotRead → Store × Bool
pick_slot io_error b = (fresh, false)
pick_slot (valid ca ga) io_error = (fresh, false)
pick_slot invalid io_error = (fresh, false)
pick_slot (valid ca ga) (valid cb gb) =
    if leb gb ga
    then (record { cur = ca; cur_gen = ga; cur_slot = slot_a; inited = true }, true)
    else (record { cur = cb; cur_gen = gb; cur_slot = slot_b; inited = true }, true)
pick_slot (valid ca ga) invalid =
    (record { cur = ca; cur_gen = ga; cur_slot = slot_a; inited = true }, true)
pick_slot invalid (valid cb gb) =
    (record { cur = cb; cur_gen = gb; cur_slot = slot_b; inited = true }, true)
pick_slot invalid invalid = (fresh, true)

-- `if (… != 0) return -1;`
infixl 5 ◌>>=◌
abbrev pub ◌>>=◌ {ℓ} : {F : Type ℓ} → F × Bool → (F → F × Bool) → F × Bool
(f, true) >>= k = k f
(f, false) >>= k = (f, false)

module _ {F : Type 0} (fl : Flash F) where
  unfoldable pub slot_read : F → ℕ → SlotRead
  slot_read f addr = elim (fl.read f addr 40) [ none ↦ io_error | some rec ↦ decode rec ]

  -- The loop of `write_pages` from `off` on, with fuel.
  unfoldable pub pages_loop : ℕ → F → ℕ → List ℕ → ℕ → F × Bool
  pages_loop zero f addr buf off = (f, false)
  pages_loop (suc fuel) f addr buf off = elim (ltb off (length buf)) [
    | true ↦
        let room = 256 - bit_and (addr + off) 0xFF in
        let left = length buf - off in
        let n = if ltb room left then room else left in
        fl.write f (addr + off) (take n (drop off buf)) >>= λ f'.
        pages_loop fuel f' addr buf (off + n)
    | false ↦ (f, true)
  ]

  -- One round writes a byte at least, so one more than the length is enough.
  unfoldable pub write_pages : F → ℕ → List ℕ → F × Bool
  write_pages f addr buf = pages_loop (suc (length buf)) f addr buf 0

  unfoldable pub init : F → Store × Bool
  unfolding slot_read pick_slot
  init f = pick_slot (slot_read f slot_a) (slot_read f slot_b)

  -- The flash calls of `config_store_save`: erase, then header, body and CRC.
  unfoldable pub program_slot : F → ℕ → List ℕ → F × Bool
  program_slot f tgt rec = do
    f1 ← fl.erase f tgt slot_size
    f2 ← write_pages f1 tgt (take 10 rec)
    f3 ← write_pages f2 (tgt + 10) (take 26 (drop 10 rec))
    write_pages f3 (tgt + 36) (drop 36 rec)

  unfoldable pub save : Store → F → IoCfg → Store × F × Bool
  save st f cfg =
      let tgt = if st.cur_slot == slot_a then slot_b else slot_a in
      let gen = u32 (st.cur_gen + 1) in
      let (f', done) = program_slot f tgt (rec_bytes gen cfg) in
      if not st.inited
      then (st, f, false)
      else if done
      then (record st { cur = cfg; cur_gen = gen; cur_slot = tgt }, f', true)
      else (st, f', false)

  unfoldable pub erase_all : Store → F → Store × F
  erase_all st f =
      let f' = (fl.erase (fl.erase f slot_a slot_size).0 slot_b slot_size).0 in
      (record st { cur = get_defaults; cur_gen = 0; cur_slot = 0 }, if st.inited then f' else f)
