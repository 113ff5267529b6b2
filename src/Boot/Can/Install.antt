-- ===== src/Boot/Can/Install.antt =====
-- A whole rescue upgrade, from the START to the CONFIRM.
use mathlib.Core.Path.{subst}
use io_edge_hub_freertos.Common.{ℕ, ◌^◌, ◌<◌, ◌≤◌, ◌≡◌, refl, sym, ap, ap₂, ◌∙◌, arith}
use io_edge_hub_freertos.Common.{
  true, false, not, ◌&&◌, inl, inr, List, [], ◌∷◌, ◌++◌, length, map, bit_and, ◌==◌,
}
use io_edge_hub_freertos.Common.{Bool-cases, if_false}
use io_edge_hub_freertos.Common.{eq→==}
use io_edge_hub_freertos.Util.Bytes.{put_le32, get_le32, get-put}
use io_edge_hub_freertos.Config.Flash.{cells}
use io_edge_hub_freertos.Fw.Upgrade.{same_bytes}
use io_edge_hub_freertos.Net.UdpCfg.{Version}
use io_edge_hub_freertos.Storage.IntFlash.{Hal, IsIntFlash}
use io_edge_hub_freertos.Storage.IntFlash.Laws.{}
use io_edge_hub_freertos.Storage.IntFlash.Success.{AllSucceed}
use io_edge_hub_freertos.Boot.Can.{
  slot0_addr, slot0_size, Boot, fw_reply, can_put, cmd_start, cmd_confirm, handle_cmd, handle_frame,
  confirm_magic,
}
use io_edge_hub_freertos.Boot.Can.Transfer.{
  joined, AllData, data_rx, cmd_rx, take_frames, Receiving, open_slot-Receiving, upload-image,
  take_frames-append,
}

module _ {H : Type 0} (hal : Hal H) (key : List ℕ) (v : Version) where
  pub start_frame :
      (size : ℕ) (b : Boot H)
      → size < 2 ^ 32
      → (handle_frame hal key v (cmd_rx 0 size) b).0 ≡ cmd_start hal key size b
  unfolding handle_frame handle_cmd get_le32 put_le32
  start_frame size b h =
      ap (λ (n : ℕ). cmd_start hal key n b)
        (get-put 0 size 0 0 (omega arith) h (omega arith) (omega arith)).2

  confirm_frame : (b : Boot H) → (handle_frame hal key v (cmd_rx 1 0) b).0 ≡ cmd_confirm hal key b
  unfolding handle_frame handle_cmd get_le32 put_le32
  confirm_frame b = refl

  module _ (cell : H → ℕ → ℕ) (part : IsIntFlash hal cell) (all : AllSucceed hal) where
    -- A start without a key, or with the right one.
    cmd_start-Receiving :
        (size : ℕ) (b : Boot H)
        → ((bit_and b.s.key_mask 31 == 31) ≡ true → same_bytes b.s.keybuf key ≡ true)
        → 64 ≤ size
        → size ≤ slot0_size
        → Receiving hal cell part (cmd_start hal key size b)
          × ((cmd_start hal key size b).s.written ≡ 0)
          × ((cmd_start hal key size b).s.total ≡ size)
    unfolding cmd_start
    cmd_start-Receiving size b mine lo hi =
        let full = bit_and b.s.key_mask 31 == 31 in
        let right : (full && not (same_bytes b.s.keybuf key)) ≡ false = elim (Bool-cases full) [
          | inl e ↦ ap₂ (λ x y. x && not y) e (mine e)
          | inr e ↦ ap (λ x. x && not (same_bytes b.s.keybuf key)) e
        ] in
        subst (λ (c : Boot H). Receiving hal cell part c × (c.s.written ≡ 0) × (c.s.total ≡ size))
          (sym (if_false (full && not (same_bytes b.s.keybuf key)) _ _ right))
          (open_slot-Receiving hal cell part all key size _ lo hi)

    cmd_confirm_installs :
        (b : Boot H)
        → b.s.active ≡ true
        → b.s.written ≡ b.s.total
        → ((cmd_confirm hal key b).s.installed ≡ true)
          × ((cmd_confirm hal key b).s.confirmed ≡ true)
          × ((cmd_confirm hal key b).flash ≡ b.flash)
          × ((cmd_confirm hal key b).sent
              ≡ b.sent ++ record { id = 0x102; bytes = put_le32 3 ++ put_le32 confirm_magic } ∷ [])
    unfolding cmd_confirm fw_reply can_put
    cmd_confirm_installs b on whole =
        subst
          (λ (c : Boot H).
            (c.s.installed ≡ true)
            × (c.s.confirmed ≡ true)
            × (c.flash ≡ b.flash)
            × (c.sent
                ≡ b.sent
                  ++ record { id = 0x102; bytes = put_le32 3 ++ put_le32 confirm_magic } ∷ []))
          (sym (
            if_false (not b.s.active) _ _ (ap not on)
            ∙ if_false (not (b.s.written == b.s.total)) _ _ (ap not (eq→== _ _ whole))))
          (refl, refl, refl, refl)

    -- On a part that behaves as its manual says and whose HAL calls succeed: a START of between 64
    -- and 0x70000 bytes, with no complete key received or with the right one, then data frames of
    -- 1 to 8 bytes which together have the announced length, then a CONFIRM, install the image:
    -- the session ends as installed, and the slot holds the frames' bytes in order.
    pub cells-take_frames :
        (b : Boot H) (size : ℕ) (ds : List (List ℕ))
        → ((bit_and b.s.key_mask 31 == 31) ≡ true → same_bytes b.s.keybuf key ≡ true)
        → 64 ≤ size
        → size ≤ slot0_size
        → AllData ds
        → length (joined ds) ≡ size
        → let b' = take_frames hal key v (cmd_rx 0 size ∷ (map data_rx ds ++ cmd_rx 1 0 ∷ [])) b in
          (b'.s.installed ≡ true)
          × (b'.s.confirmed ≡ true)
          × (cells (cell b'.flash) slot0_addr size ≡ joined ds)
    cells-take_frames b size ds mine lo hi fine len =
        let b1 = cmd_start hal key size b in
        let (r1, w1, t1) = cmd_start-Receiving size b mine lo hi in
        let b2 = take_frames hal key v (map data_rx ds) b1 in
        let (r2, i2, t2, w2) =
          upload-image hal cell part all key v ds b1 r1 fine (omega (arith, w1, t1)) in
        let b3 = cmd_confirm hal key b2 in
        let (i3, c3, f3, s3) = cmd_confirm_installs b2 r2.on (omega (arith, w1, t1, t2, w2)) in
        let all_frames : take_frames hal key v (map data_rx ds ++ cmd_rx 1 0 ∷ [])
              (handle_frame hal key v (cmd_rx 0 size) b).0
            ≡ b3 =
          ap (take_frames hal key v (map data_rx ds ++ cmd_rx 1 0 ∷ []))
            (start_frame size b (omega arith))
          ∙ take_frames-append hal cell part all key v (map data_rx ds) (cmd_rx 1 0 ∷ []) b1
          ∙ confirm_frame b2 in
        let slot : cells (cell b3.flash) slot0_addr size ≡ joined ds =
          ap (λ f. cells (cell f) slot0_addr size) f3
          ∙ ap (cells (cell b2.flash) slot0_addr) {x = size} {y = b2.s.written}
              (omega (arith, w1, w2))
          ∙ i2
          ∙ ap (λ n. cells (cell b1.flash) slot0_addr n ++ joined ds) w1 in
        subst
          (λ (c : Boot H).
            (c.s.installed ≡ true)
            × (c.s.confirmed ≡ true)
            × (cells (cell c.flash) slot0_addr size ≡ joined ds))
          (sym all_frames) (i3, c3, slot)
