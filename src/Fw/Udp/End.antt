-- ===== src/Fw/Udp/End.antt =====
-- When an upgrade is asked of the boot loader.
use mathlib.Core.Path.{subst}
use io_edge_hub_freertos.Common.{
  ℕ, ◌+◌, ◌≤◌, ◌≡◌, refl, sym, ap, ◌∙◌, Bool, true, false, ◌&&◌, some, List, [], ◌∷◌, length,
  byte_at,
}
use io_edge_hub_freertos.Common.{◌==◌, if◌then◌else◌, if_true, if_false}
use io_edge_hub_freertos.Config.Codec.{get_le16}
use io_edge_hub_freertos.Config.Flash.{Flash, IsNor, InPage, cells}
use io_edge_hub_freertos.Fw.Upgrade.{slot1_size, upg_finish, upg_finish_ex, crc16_ccitt}
use io_edge_hub_freertos.Fw.Upgrade.Image.{image, Receiving}
use io_edge_hub_freertos.Fw.Upgrade.Finish.{hash_ok, upg_finish_ex-image}
use io_edge_hub_freertos.Fw.Udp.{Worker, on_end}

module _ {F B : Type 0} (fl : Flash F) (key : List ℕ) (mark : B → Bool → B × Bool) where
  -- The boot loader is asked when, and only when, the session's end is a success.
  on_end_asks :
      (w : Worker F B) (bytes : List ℕ) (c : Bool)
      → (upg_finish fl key w.s w.flash (get_le16 bytes 1)).2 ≡ c
      → ((on_end fl key mark w bytes).0.boot
          ≡ (if c then (mark w.boot (byte_at bytes 0 == 0)).0 else w.boot))
        × ((on_end fl key mark w bytes).1
            ≡ 3 ∷ (if c && (mark w.boot (byte_at bytes 0 == 0)).1 then 1 else 0) ∷ [])
        × ((on_end fl key mark w bytes).0.flash
            ≡ (upg_finish fl key w.s w.flash (get_le16 bytes 1)).1)
  unfolding on_end
  on_end_asks w bytes true e =
      subst
        (λ (r : Worker F B × List ℕ).
          (r.0.boot ≡ (mark w.boot (byte_at bytes 0 == 0)).0)
          × (r.1 ≡ 3 ∷ (if (mark w.boot (byte_at bytes 0 == 0)).1 then 1 else 0) ∷ [])
          × (r.0.flash ≡ (upg_finish fl key w.s w.flash (get_le16 bytes 1)).1))
        (sym (if_true _ _ _ e)) (refl, refl, refl)
  on_end_asks w bytes false e =
      subst
        (λ (r : Worker F B × List ℕ).
          (r.0.boot ≡ w.boot)
          × (r.1 ≡ 3 ∷ 0 ∷ [])
          × (r.0.flash ≡ (upg_finish fl key w.s w.flash (get_le16 bytes 1)).1))
        (sym (if_false _ _ _ e)) (refl, refl, refl)

  module _ (cell : F → ℕ → ℕ)
      (readable : (f : F) (a n : ℕ)
        → a + n ≤ slot1_size
        → fl.read f a n ≡ some (cells (cell f) a n))
      (nor : IsNor fl cell)
      (good : (f : F) (a : ℕ) (bs : List ℕ)
        → InPage a (length bs)
        → a + length bs ≤ slot1_size
        → (fl.write f a bs).1 ≡ true) where
    -- What has come is as long as announced, has the checksum of the END, and the flash then holds
    -- the fingerprint of the firmware's key.
    abbrev pub verified : Worker F B → List ℕ → Bool
    verified w bytes =
        (w.s.written + length w.s.page == w.s.total)
        && ((crc16_ccitt 0 (image fl cell w.s w.flash) == get_le16 bytes 1)
            && hash_ok fl key (on_end fl key mark w bytes).0.flash)

    -- An END of a session that has received without a failure, on a NOR flash whose reads, and
    -- program calls within a page, succeed within the slot: when the image is as long as announced, has the END's checksum and carries the
    -- fingerprint of the key, the boot loader is asked for the upgrade, for good if the first byte
    -- is 0, and the answer is whether it took the request; else it is asked nothing, and the answer
    -- is 0.
    pub on_end-verified :
        (w : Worker F B) (bytes : List ℕ)
        → w.s.active ≡ true
        → w.s.failed ≡ false
        → Receiving fl cell w.s w.flash
        → ((on_end fl key mark w bytes).0.boot
            ≡ (if verified w bytes then (mark w.boot (byte_at bytes 0 == 0)).0 else w.boot))
          × ((on_end fl key mark w bytes).1
              ≡ 3
                ∷ (if verified w bytes && (mark w.boot (byte_at bytes 0 == 0)).1 then 1 else 0)
                ∷ [])
    unfolding upg_finish
    on_end-verified w bytes on ok v =
        let (verdict, over, kept) =
          upg_finish_ex-image fl cell readable nor good key w.s w.flash (get_le16 bytes 1) on ok
            v in
        let c = (upg_finish_ex fl key w.s w.flash (get_le16 bytes 1) true).2 in
        let asks = on_end_asks w bytes c refl in
        let same : verified w bytes ≡ (upg_finish_ex fl key w.s w.flash (get_le16 bytes 1) true).2 =
          ap
            (λ f.
              (w.s.written + length w.s.page == w.s.total)
              && ((crc16_ccitt 0 (image fl cell w.s w.flash) == get_le16 bytes 1)
                  && hash_ok fl key f))
            asks.2
          ∙ sym verdict in
        (
          asks.0
              ∙ ap (λ c. if c then (mark w.boot (byte_at bytes 0 == 0)).0 else w.boot) (sym same),
          asks.1
              ∙ ap (λ c. 3 ∷ (if c && (mark w.boot (byte_at bytes 0 == 0)).1 then 1 else 0) ∷ [])
                  (sym same),
        )
