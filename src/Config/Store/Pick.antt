-- ===== src/Config/Store/Pick.antt =====
-- The choice between two slots, as a function of what they hold.
use io_edge_hub_freertos.Common.{ℕ, ◌<◌, ◌≡◌, refl}
use io_edge_hub_freertos.Common.{◌≢◌, arith, Bool, true, ltb, leb}
use io_edge_hub_freertos.Common.{◌==◌, if◌then◌else◌}
use io_edge_hub_freertos.Config.Codec.{IoCfg, SlotRead}
use io_edge_hub_freertos.Config.Codec.{valid, invalid, io_error}
use io_edge_hub_freertos.Config.Store.{Store, fresh, pick_slot}
use io_edge_hub_freertos.Config.Store.{slot_a, slot_b}

-- A newer record in the slot that is not active becomes the active one.
pub pick_newer :
    (a b : SlotRead) (st : Store) (cfg : IoCfg) (gen : ℕ)
    → pick_slot a b ≡ (st, true)
    → st.cur_gen < gen
    → pick_slot
        (if st.cur_slot == slot_a then a else valid cfg gen)
        (if st.cur_slot == slot_a then valid cfg gen else b)
      ≡ (
        record st {
          cur = cfg;
          cur_gen = gen;
          cur_slot = if st.cur_slot == slot_a then slot_b else slot_a;
        },
        true,
      )
unfolding pick_slot
pick_newer io_error b st cfg gen e h = absurd (cc)
pick_newer (valid ca ga) io_error st cfg gen e h = absurd (cc)
pick_newer invalid io_error st cfg gen e h = absurd (cc)
pick_newer (valid ca ga) (valid cb gb) st cfg gen e h = ground arith
pick_newer (valid ca ga) invalid st cfg gen e h = ground arith
pick_newer invalid (valid cb gb) st cfg gen e h = ground arith
pick_newer invalid invalid st cfg gen e h = ground arith

-- The record with configuration `c` and generation `gen`, in the slot that is not active, is
-- preferred to the active one: slot A needs no lower generation, slot B a higher one, and any will do
-- when none is active.
unfoldable pub preferred : Store → ℕ → Bool
preferred st gen =
    if st.cur_slot == slot_a
    then ltb st.cur_gen gen
    else if st.cur_slot == slot_b
    then leb st.cur_gen gen
    else true

-- The statics at a start when the slot that is not active reads as `r`.
unfoldable pub survivor : Store → SlotRead → Store
unfolding preferred
survivor st io_error = st
survivor st invalid = st
survivor st (valid c gen) =
    if preferred st gen
    then record {
      cur = c;
      cur_gen = gen;
      cur_slot = if st.cur_slot == slot_a then slot_b else slot_a;
      inited = true;
    }
    else st

-- Whatever the slot that is not active has become.
pub pick_survivor :
    (a b : SlotRead) (st : Store) (r : SlotRead)
    → pick_slot a b ≡ (st, true)
    → r ≢ io_error
    → pick_slot (if st.cur_slot == slot_a then a else r) (if st.cur_slot == slot_a then r else b)
      ≡ (survivor st r, true)
unfolding pick_slot survivor
pick_survivor a b st io_error e k = absurd (k refl)
pick_survivor io_error b st r e k = absurd (cc)
pick_survivor (valid ca ga) io_error st r e k = absurd (cc)
pick_survivor invalid io_error st r e k = absurd (cc)
pick_survivor (valid ca ga) (valid cb gb) st invalid e k = ground arith
pick_survivor (valid ca ga) invalid st invalid e k = ground arith
pick_survivor invalid (valid cb gb) st invalid e k = ground arith
pick_survivor invalid invalid st invalid e k = ground arith
pick_survivor (valid ca ga) (valid cb gb) st (valid c g) e k = ground arith
pick_survivor (valid ca ga) invalid st (valid c g) e k = ground arith
pick_survivor invalid (valid cb gb) st (valid c g) e k = ground arith
pick_survivor invalid invalid st (valid c g) e k = ground arith

pub pick_inited : (a b : SlotRead) (st : Store) → pick_slot a b ≡ (st, true) → st.inited ≡ true
unfolding pick_slot
pick_inited io_error b st e = ground arith
pick_inited (valid ca ga) io_error st e = ground arith
pick_inited invalid io_error st e = ground arith
pick_inited (valid ca ga) (valid cb gb) st e = ground arith
pick_inited (valid ca ga) invalid st e = ground arith
pick_inited invalid (valid cb gb) st e = ground arith
pick_inited invalid invalid st e = ground arith

pub pick_reads_a : (a b : SlotRead) (st : Store) → pick_slot a b ≡ (st, true) → a ≢ io_error
unfolding pick_slot
pick_reads_a io_error b st e = absurd (cc)
pick_reads_a (valid ca ga) b st e = λ h. cc
pick_reads_a invalid b st e = λ h. cc

pub pick_reads_b : (a b : SlotRead) (st : Store) → pick_slot a b ≡ (st, true) → b ≢ io_error
unfolding pick_slot
pick_reads_b io_error b st e = absurd (cc)
pick_reads_b (valid ca ga) io_error st e = absurd (cc)
pick_reads_b invalid io_error st e = absurd (cc)
pick_reads_b (valid ca ga) (valid cb gb) st e = λ h. cc
pick_reads_b (valid ca ga) invalid st e = λ h. cc
pick_reads_b invalid (valid cb gb) st e = λ h. cc
pick_reads_b invalid invalid st e = λ h. cc

pub pick_blank : pick_slot invalid invalid ≡ (fresh, true)
unfolding pick_slot
pick_blank = refl
