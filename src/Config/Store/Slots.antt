-- ===== src/Config/Store/Slots.antt =====
-- What the slots hold before and after a save.
use io_edge_hub_freertos.Common.{ℕ, ◌+◌, ◌%◌, ◌≤◌, ◌≡◌, refl, sym, ap, ap₂, ◌∙◌}
use io_edge_hub_freertos.Common.{
  ◌≢◌, ◌⊎◌, inl, inr, arith, Bool, true, false, some, none, List, length,
}
use io_edge_hub_freertos.Common.{Option, ◌==◌, if◌then◌else◌, Bool-cases, u32}
use io_edge_hub_freertos.Config.Flash.{Flash, IsNor, cells}
use io_edge_hub_freertos.Config.Codec.{IoCfg, rec_bytes, decode, SlotRead}
use io_edge_hub_freertos.Config.Codec.{io_error}
use io_edge_hub_freertos.Config.Store.{Store, pick_slot, slot_read, init, save}
use io_edge_hub_freertos.Config.Store.{program_slot, slot_a, slot_b, slot_size}
use io_edge_hub_freertos.Config.Store.Pick.{pick_reads_a, pick_reads_b}
use io_edge_hub_freertos.Config.Store.Program.{program_slot-keeps, program_slot-stores, cells_cong}

pub length-rec_bytes : (gen : ℕ) (c : IoCfg) → length (rec_bytes gen c) ≡ 40
unfolding rec_bytes
length-rec_bytes gen c = refl

-- The slot that the next save goes to.
abbrev pub target : Store → ℕ
target st = if st.cur_slot == slot_a then slot_b else slot_a

pub target_aligned : (st : Store) → target st % 4096 ≡ 0
target_aligned st = ground arith

module _ {F : Type 0} (fl : Flash F) (cell : F → ℕ → ℕ) where
  -- What a slot holds, read without error.
  unfoldable pub stored : F → ℕ → SlotRead
  stored f addr = decode (cells (cell f) addr 40)

  -- The statics are those that a start from this flash gives.
  abbrev pub Persisted : Store → F → Type 0
  Persisted st f = pick_slot (stored f slot_a) (stored f slot_b) ≡ (st, true)

  module _ (st : Store) (f : F) (cfg : IoCfg) where
    abbrev pub record_out : List ℕ
    record_out = rec_bytes (u32 (st.cur_gen + 1)) cfg

    abbrev pub programmed : F × Bool
    programmed = program_slot fl f (target st) record_out

    abbrev pub saved : Store
    saved = record st { cur = cfg; cur_gen = u32 (st.cur_gen + 1); cur_slot = target st }

    pub save_done :
        st.inited ≡ true → programmed.1 ≡ true → save fl st f cfg ≡ (saved, programmed.0, true)
    unfolding save
    save_done i e = rw (i, e)

    pub save_failed :
        st.inited ≡ true → programmed.1 ≡ false → save fl st f cfg ≡ (st, programmed.0, false)
    unfolding save
    save_failed i e = rw (i, e)

  read_result : Option (List ℕ) → SlotRead
  read_result none = io_error
  read_result (some rec) = decode rec

  slot_read-eq : (f : F) (addr : ℕ) → slot_read fl f addr ≡ read_result (fl.read f addr 40)
  unfolding slot_read read_result
  slot_read-eq f addr = ground arith

  module _ (nor : IsNor fl cell) where
    read_result-stored :
        (f : F) (addr : ℕ) (r : Option (List ℕ))
        → fl.read f addr 40 ≡ r
        → read_result r ≢ io_error
        → read_result r ≡ stored f addr
    unfolding read_result stored
    read_result-stored f addr none e k = absurd (k refl)
    read_result-stored f addr (some rec) e k = ap decode (nor.read_cells f addr 40 rec e)

    pub slot_read-stored :
        (f : F) (addr : ℕ) → slot_read fl f addr ≢ io_error → slot_read fl f addr ≡ stored f addr
    slot_read-stored f addr h =
        slot_read-eq f addr
        ∙ read_result-stored f addr (fl.read f addr 40) refl (λ e. h (slot_read-eq f addr ∙ e))

    -- A start whose two reads succeed finds what is stored.
    pub init-stored :
        (f : F)
        → slot_read fl f slot_a ≢ io_error
        → slot_read fl f slot_b ≢ io_error
        → init fl f ≡ pick_slot (stored f slot_a) (stored f slot_b)
    init-stored f ha hb =
        unfold init in rw (slot_read-stored f slot_a ha, slot_read-stored f slot_b hb)

    module _ (f : F) (rec : List ℕ) (full : length rec ≡ 40) where
      -- A program of one slot leaves the other as it was.
      pub other_kept :
          (tgt addr : ℕ)
          → tgt % 4096 ≡ 0
          → (addr + 40 ≤ tgt) ⊎ (tgt + slot_size ≤ addr)
          → stored (program_slot fl f tgt rec).0 addr ≡ stored f addr
      unfolding stored
      other_kept tgt addr h away = ap decode (
          cells_cong _ _ _ 40
            λ i lo hi. program_slot-keeps fl cell nor f tgt rec h full i (omega arith))

      pub program_stored :
          (tgt : ℕ)
          → tgt % 4096 ≡ 0
          → (program_slot fl f tgt rec).1 ≡ true
          → stored (program_slot fl f tgt rec).0 tgt ≡ decode rec
      unfolding stored
      program_stored tgt h done = ap decode (program_slot-stores fl cell nor f tgt rec h full done)

      -- So the two slots read as before, but for the target.
      pub slots_after :
          (st : Store) (r : SlotRead)
          → stored (program_slot fl f (target st) rec).0 (target st) ≡ r
          → pick_slot
              (stored (program_slot fl f (target st) rec).0 slot_a)
              (stored (program_slot fl f (target st) rec).0 slot_b)
            ≡ pick_slot
                (if st.cur_slot == slot_a then stored f slot_a else r)
                (if st.cur_slot == slot_a then r else stored f slot_b)
      slots_after st r e = elim (Bool-cases (st.cur_slot == slot_a)) [
        | inl q ↦
            ap₂ pick_slot (rw q (other_kept slot_b slot_a (omega arith) (omega arith)))
              (rw q (rw q at e))
        | inr q ↦
            ap₂ pick_slot (rw q (rw q at e))
              (rw q (other_kept slot_a slot_b (omega arith) (omega arith)))
      ]

    pub init-Persisted : (f : F) (st : Store) → init fl f ≡ (st, true) → Persisted st f
    unfolding init
    init-Persisted f st e =
        ap₂ pick_slot (sym (slot_read-stored f slot_a (λ bad. pick_reads_a _ _ st e bad)))
          (sym (slot_read-stored f slot_b (λ bad. pick_reads_b _ _ st e bad)))
        ∙ e
