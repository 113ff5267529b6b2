-- ===== src/Config/Store/Laws.antt =====
-- The two slots across a reboot: after a save, after a failed save, and after a factory reset.
use io_edge_hub_freertos.Common.{ℕ, zero, suc, ◌+◌, ◌^◌, ◌≤◌, ◌<◌, ◌≡◌, refl, sym, ap, ap₂, ◌∙◌}
use io_edge_hub_freertos.Common.{◌≢◌, inl, inr, arith, true, false, List}
use io_edge_hub_freertos.Common.{◌==◌, if◌then◌else◌, Bool-cases, u32, replicate, byte_at}
use io_edge_hub_freertos.Config.Flash.{Flash, IsNor, cells}
use io_edge_hub_freertos.Config.Codec.{IoCfg, IsWords, get_defaults, decode, SlotRead}
use io_edge_hub_freertos.Config.Codec.{valid, invalid, io_error}
use io_edge_hub_freertos.Config.Codec.RoundTrip.{decode-rec_bytes}
use io_edge_hub_freertos.Config.Store.{
  Store, get, fresh, pick_slot, slot_read, init, save, erase_all,
}
use io_edge_hub_freertos.Config.Store.{slot_a, slot_b, slot_size}
use io_edge_hub_freertos.Config.Store.Program.{cells_ext}
use io_edge_hub_freertos.Config.Store.Pick.{
  pick_blank, pick_newer, pick_survivor, survivor, pick_inited,
}
use io_edge_hub_freertos.Config.Store.Slots.{Persisted, stored, target, target_aligned, record_out}
use io_edge_hub_freertos.Config.Store.Slots.{programmed, saved, save_done, save_failed, init-stored}
use io_edge_hub_freertos.Config.Store.Slots.{program_stored, slots_after, length-rec_bytes}

get-inited : (st : Store) → st.inited ≡ true → get st ≡ st.cur
unfolding get
get-inited st i = rw i

replicate_at : (n j : ℕ) → j < n → byte_at (replicate n 255) j ≡ 255
replicate_at zero j h = absurd (omega arith)
replicate_at (suc n) zero h = refl
replicate_at (suc n) (suc j) h = replicate_at n j (omega arith)

decode-ne : (bs : List ℕ) → decode bs ≢ io_error
unfolding decode
decode-ne bs = ground arith

erased_record : decode (replicate 40 255) ≡ invalid
unfolding decode
erased_record = refl

module _ {F : Type 0} (fl : Flash F) (cell : F → ℕ → ℕ) (nor : IsNor fl cell) where
  abbrev Live : Store → F → Type 0
  Live = Persisted fl cell

  stored-ne : (f : F) (addr : ℕ) → stored fl cell f addr ≢ io_error
  unfolding stored
  stored-ne f addr = decode-ne (cells (cell f) addr 40)

  module _ (st : Store) (f : F) (cfg : IoCfg) (live : Live st f) where
    inited : st.inited ≡ true
    inited = pick_inited _ _ st live

    slots_of_save :
        (r : SlotRead)
        → stored fl cell (programmed fl cell st f cfg).0 (target st) ≡ r
        → pick_slot
            (stored fl cell (programmed fl cell st f cfg).0 slot_a)
            (stored fl cell (programmed fl cell st f cfg).0 slot_b)
          ≡ pick_slot
              (if st.cur_slot == slot_a then stored fl cell f slot_a else r)
              (if st.cur_slot == slot_a then r else stored fl cell f slot_b)
    slots_of_save r e =
        slots_after fl cell nor f (record_out fl cell st f cfg) (length-rec_bytes _ cfg) st r e

    -- After a save that reports success, on a NOR flash with whose slots the statics agreed and
    -- below the last 32-bit generation, the statics are again those that the slots give to a
    -- start, and the configuration that they give to a reader is the one that was saved.
    pub save-Persisted :
        st.cur_gen + 1 < 2 ^ 32
        → IsWords cfg
        → (save fl st f cfg).2 ≡ true
        → Live (save fl st f cfg).0 (save fl st f cfg).1 × (get (save fl st f cfg).0 ≡ cfg)
    save-Persisted small words done = elim (Bool-cases (programmed fl cell st f cfg).1) [
      | inr bad ↦ absurd (cc (save_failed fl cell st f cfg inited bad))
      | inl good ↦ rw (save_done fl cell st f cfg inited good) (
        slots_of_save (valid cfg (u32 (st.cur_gen + 1))) (
              program_stored fl cell nor f (record_out fl cell st f cfg) (length-rec_bytes _ cfg)
                (target st) (target_aligned st) good
              ∙ decode-rec_bytes (u32 (st.cur_gen + 1)) cfg (omega arith) words)
            ∙ pick_newer _ _ st cfg (u32 (st.cur_gen + 1)) live (omega arith),
        get-inited (saved fl cell st f cfg) inited,
      )
    ]

    save_failed_kept :
        (save fl st f cfg).2 ≡ false
        → pick_slot
            (stored fl cell (save fl st f cfg).1 slot_a)
            (stored fl cell (save fl st f cfg).1 slot_b)
          ≡ (survivor st (stored fl cell (save fl st f cfg).1 (target st)), true)
    save_failed_kept bad = elim (Bool-cases (programmed fl cell st f cfg).1) [
      | inl good ↦ absurd (cc (save_done fl cell st f cfg inited good))
      | inr e ↦ rw (save_failed fl cell st f cfg inited e) (
          slots_of_save (stored fl cell (programmed fl cell st f cfg).0 (target st)) refl
          ∙ pick_survivor _ _ st (stored fl cell (programmed fl cell st f cfg).0 (target st)) live
              (stored-ne (programmed fl cell st f cfg).0 (target st)))
    ]

    -- Save, then a start, on a NOR flash with whose slots the statics agreed before, below the
    -- last 32-bit generation: when the save reports success and the start can read both slots,
    -- the start restores exactly the statics that the save left, and the configuration read from
    -- them is the one that was saved.
    pub init-save :
        st.cur_gen + 1 < 2 ^ 32
        → IsWords cfg
        → (save fl st f cfg).2 ≡ true
        → slot_read fl (save fl st f cfg).1 slot_a ≢ io_error
        → slot_read fl (save fl st f cfg).1 slot_b ≢ io_error
        → (init fl (save fl st f cfg).1 ≡ ((save fl st f cfg).0, true))
          × (get (init fl (save fl st f cfg).1).0 ≡ cfg)
    init-save small words done ra rb =
        let back =
          init-stored fl cell nor (save fl st f cfg).1 ra rb
          ∙ (save-Persisted small words done).0 in
        (back, ap (λ r. get r.0) back ∙ (save-Persisted small words done).1)

    -- On a NOR flash with whose slots the statics agreed, a save that reports failure, at whatever
    -- call and whatever it left in the slot it was writing, followed by a start that can read both
    -- slots, restores the statics from before the save, unless the slot that was being written then
    -- holds a valid record that is preferred to the active one (in slot A one of no lower generation,
    -- in slot B one of a higher, and any if none was active): then it loads exactly that record.
    pub init-save_failed :
        (save fl st f cfg).2 ≡ false
        → slot_read fl (save fl st f cfg).1 slot_a ≢ io_error
        → slot_read fl (save fl st f cfg).1 slot_b ≢ io_error
        → init fl (save fl st f cfg).1
          ≡ (survivor st (stored fl cell (save fl st f cfg).1 (target st)), true)
    init-save_failed bad ra rb =
        init-stored fl cell nor (save fl st f cfg).1 ra rb ∙ save_failed_kept bad

  blank-invalid :
      (f : F) (addr : ℕ)
      → ((i : ℕ) → addr ≤ i → i < addr + 40 → cell f i ≡ 255)
      → stored fl cell f addr ≡ invalid
  unfolding stored
  blank-invalid f addr h =
      ap decode (
        cells_ext (cell f) addr 40 (replicate 40 255) refl
          λ j p. h (addr + j) (omega arith) (omega arith) ∙ sym (replicate_at 40 j p))
      ∙ erased_record

  -- A factory reset of an initialised store on a NOR flash, whose two erases succeed, leaves the
  -- defaults, and the statics agree with the slots.
  pub erase_all-Persisted :
      (st : Store) (f : F)
      → st.inited ≡ true
      → (fl.erase f slot_a slot_size).1 ≡ true
      → (fl.erase (fl.erase f slot_a slot_size).0 slot_b slot_size).1 ≡ true
      → Live (erase_all fl st f).0 (erase_all fl st f).1
        × (get (erase_all fl st f).0 ≡ get_defaults)
  unfolding erase_all
  erase_all-Persisted st f i ok_a ok_b = rw i (
    ap₂ pick_slot
          (blank-invalid _ slot_a λ j lo hi.
            nor.erase_keeps _ slot_b slot_size j (omega arith) (inl (omega arith))
            ∙ nor.erase_blank f slot_a slot_size j (omega arith) ok_a lo (omega arith))
          (blank-invalid _ slot_b
            λ j lo hi. nor.erase_blank _ slot_b slot_size j (omega arith) ok_b lo (omega arith))
        ∙ pick_blank,
    get-inited fresh refl,
  )
