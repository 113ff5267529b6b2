-- ===== src/Fw/Can/Commands/Laws.antt =====
-- What a START and a CONFIRM over CAN do, whatever went before.
use mathlib.Core.Path.{subst}
use io_edge_hub_freertos.Common.{
  ℕ, ◌≤◌, ◌≡◌, refl, sym, ap, ap₂, ◌∙◌, arith, Bool, true, false, not, ◌&&◌, ◌||◌,
}
use io_edge_hub_freertos.Common.{
  Option, none, some, List, [], ◌∷◌, ◌++◌, bit_and, ltb, ◌==◌, if◌then◌else◌, if_false, if_both,
  le→ltb,
}
use io_edge_hub_freertos.Util.Bytes.{put_le32}
use io_edge_hub_freertos.Config.Flash.{Flash, IsNor}
use io_edge_hub_freertos.Fw.Upgrade.{
  Session, Started, started, slot1_offset, slot1_size, upg_abort, upg_start, upg_finish_ex,
  same_bytes,
}
use io_edge_hub_freertos.Fw.Upgrade.Image.{image, Receiving}
use io_edge_hub_freertos.Fw.Can.Commands.{
  Task, reply, start_reply, platform_start, platform_confirm,
}

module _ {F B : Type 0} (fl : Flash F) (key : List ℕ) (mark : B → Bool → B × Bool) where
  -- What a task has when a START has been taken.
  abbrev opened : ℕ → Task F B → Task F B
  opened size t = record t {
    s = record { active = true; failed = false; total = size; written = 0; page = [] };
    flash = (fl.erase t.flash slot1_offset slot1_size).0;
    key =
        if bit_and t.key.key_chunk_mask 31 == 31
        then record (t.key) { key_chunk_mask = 0 }
        else t.key;
    fw_q = [];
    sent = t.sent ++ record { id = 0x102; bytes = put_le32 0 ++ put_le32 0 } ∷ [];
  }

  upg_start_opens :
      (s : Session) (f : F) (size : ℕ) (kh : Option (List ℕ))
      → 64 ≤ size
      → size ≤ slot1_size
      → (fl.erase f slot1_offset slot1_size).1 ≡ true
      → (elim kh [ none ↦ true | some k ↦ same_bytes k key ]) ≡ true
      → upg_start fl key (upg_abort s) f size kh ≡ (
        record { active = true; failed = false; total = size; written = 0; page = [] },
        (fl.erase f slot1_offset slot1_size).0,
        started,
      )
  unfolding upg_start upg_abort
  upg_start_opens s f size kh lo hi done mine =
      let e0 = (fl.erase f slot1_offset slot1_size).1 in
      if_false (ltb size 64 || ltb slot1_size size) _ _
        (ap₂ ◌||◌ (le→ltb size 64 lo) (le→ltb slot1_size size hi))
      ∙ if_false (not (elim kh [ none ↦ true | some k ↦ same_bytes k key ])) _ _ (ap not mine)
      ∙ if_false (not e0) _ _ (ap not done)

  platform_start_opened :
      (size : ℕ) (t : Task F B)
      → 64 ≤ size
      → size ≤ slot1_size
      → (fl.erase t.flash slot1_offset slot1_size).1 ≡ true
      → ((bit_and t.key.key_chunk_mask 31 == 31) ≡ true → same_bytes t.key.rx_keybuf key ≡ true)
      → platform_start fl key mark size t ≡ opened size t
  unfolding platform_start start_reply reply
  platform_start_opened size t lo hi done mine =
      let full = bit_and t.key.key_chunk_mask 31 == 31 in
      let kh : Option (List ℕ) = if full then some t.key.rx_keybuf else none in
      let Mine : Option (List ℕ) → Type 0 =
        λ k. (elim k [ none ↦ true | some x ↦ same_bytes x key ]) ≡ true in
      let right : Mine kh = if_both Mine full (some t.key.rx_keybuf) none mine (λ e. refl) in
      ap
        (λ (r : Session × F × Started). start_reply fl key mark r.2 (record t {
          s = r.0;
          flash = r.1;
          key = if full then record (t.key) { key_chunk_mask = 0 } else t.key;
        }))
        (upg_start_opens t.s t.flash size kh lo hi done right)

  -- A CONFIRM to a session, open or not: the boot loader is asked for the upgrade when, and only
  -- when, the session is open and its end without a checksum is a success; the answer is the
  -- confirmation only if the boot loader took the request, else the transfer error; and the frames
  -- that wait in the queue of an open session are dropped.
  pub platform_confirm-upg_finish_ex :
      (arg : ℕ) (t : Task F B)
      → let ok = t.s.active && (upg_finish_ex fl key t.s t.flash 0 false).2 in
        let asked = mark t.boot (not (arg == 0)) in
        let t' = platform_confirm fl key mark arg t in
        (t'.boot ≡ (if ok then asked.0 else t.boot))
        × (t'.sent
            ≡ t.sent
              ++ record {
                id = 0x102;
                bytes =
                    if ok && asked.1
                    then put_le32 3 ++ put_le32 0x55AA55AA
                    else put_le32 5 ++ put_le32 0;
              }
                ∷ [])
        × (t'.fw_q ≡ (if t.s.active then [] else t.fw_q))
  unfolding platform_confirm reply
  platform_confirm-upg_finish_ex arg t =
      go t.s.active (upg_finish_ex fl key t.s t.flash 0 false).2 (mark t.boot (not (arg == 0))).1
    where
      t1 : Task F B
      t1 = record t {
        fw_q = [];
        s = (upg_finish_ex fl key t.s t.flash 0 false).0;
        flash = (upg_finish_ex fl key t.s t.flash 0 false).1;
      }

      t2 : Task F B
      t2 = record t1 { boot = (mark t.boot (not (arg == 0))).0 }

      Says : Bool → Bool → Bool → Task F B → Type 0
      Says open_session done marked t' =
          (t'.boot ≡ (if open_session && done then (mark t.boot (not (arg == 0))).0 else t.boot))
          × (t'.sent
              ≡ t.sent
                ++ record {
                  id = 0x102;
                  bytes =
                      if (open_session && done) && marked
                      then put_le32 3 ++ put_le32 0x55AA55AA
                      else put_le32 5 ++ put_le32 0;
                }
                  ∷ [])
          × (t'.fw_q ≡ (if open_session then [] else t.fw_q))

      go :
          (a d m : Bool)
          → Says a d m (
              if not a
              then reply 5 0 t
              else if not d
              then reply 5 0 t1
              else if not m
              then reply 5 0 t2
              else reply 3 0x55AA55AA t2)
      go false d m = (refl, refl, refl)
      go true false m = (refl, refl, refl)
      go true true false = (refl, refl, refl)
      go true true true = (refl, refl, refl)

module _ {F B : Type 0} (fl : Flash F) (cell : F → ℕ → ℕ) (nor : IsNor fl cell) (key : List ℕ)
    (mark : B → Bool → B × Bool) where
  -- A START of a size that the slot can hold, whatever session, failure and frames there were
  -- before, with no complete fingerprint received or with the key's own, and an erase that succeeds:
  -- a session is open that has received nothing and is ready to receive, the queue is empty, and the
  -- answer is the offset 0.
  pub platform_start-Receiving :
      (size : ℕ) (t : Task F B)
      → 64 ≤ size
      → size ≤ slot1_size
      → (fl.erase t.flash slot1_offset slot1_size).1 ≡ true
      → ((bit_and t.key.key_chunk_mask 31 == 31) ≡ true → same_bytes t.key.rx_keybuf key ≡ true)
      → let t' = platform_start fl key mark size t in
        Receiving fl cell t'.s t'.flash
        × (image fl cell t'.s t'.flash ≡ [])
        × (t'.s.active ≡ true)
        × (t'.s.failed ≡ false)
        × (t'.s.total ≡ size)
        × (t'.fw_q ≡ [])
        × (t'.sent ≡ t.sent ++ record { id = 0x102; bytes = put_le32 0 ++ put_le32 0 } ∷ [])
  platform_start-Receiving size t lo hi done mine =
      subst
        (λ (t' : Task F B).
          Receiving fl cell t'.s t'.flash
          × (image fl cell t'.s t'.flash ≡ [])
          × (t'.s.active ≡ true)
          × (t'.s.failed ≡ false)
          × (t'.s.total ≡ size)
          × (t'.fw_q ≡ [])
          × (t'.sent ≡ t.sent ++ record { id = 0x102; bytes = put_le32 0 ++ put_le32 0 } ∷ []))
        (sym (platform_start_opened fl key mark size t lo hi done mine))
        (
          record {
            aligned = omega arith;
            short = omega arith;
            fits = omega arith;
            blank = λ i low high.
                nor.erase_blank t.flash slot1_offset slot1_size i (omega arith) done (omega arith)
                  (omega arith);
          },
          refl,
          refl,
          refl,
          refl,
          refl,
          refl,
        )
