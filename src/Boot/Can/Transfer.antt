-- ===== src/Boot/Can/Transfer.antt =====
-- What the commands and data frames of a rescue upgrade leave in the slot.
use mathlib.Core.Path.{subst}
use io_edge_hub_freertos.Common.{ℕ, ◌+◌, ◌%◌, ◌<◌, ◌≤◌, ◌≡◌, refl, sym, ap, ap₂, ◌∙◌, arith, Bool}
use io_edge_hub_freertos.Common.{
  true, not, ◌||◌, inl, inr, List, [], ◌∷◌, ◌++◌, length, take, take_all, length-append,
  append_assoc, append-nil, map, AllBelow, u32, ltb, ◌==◌,
}
use io_edge_hub_freertos.Common.{if_false, if_both}
use io_edge_hub_freertos.Common.{le→ltb, ne→==}
use io_edge_hub_freertos.Util.Bytes.{put_le32}
use io_edge_hub_freertos.Config.Flash.{cells}
use io_edge_hub_freertos.Config.Store.Program.{cells_cong}
use io_edge_hub_freertos.Fw.Upgrade.Image.{cells-add}
use io_edge_hub_freertos.Net.UdpCfg.{Version}
use io_edge_hub_freertos.Storage.IntFlash.{
  Hal, IsIntFlash, align_4k, intflash_erase, intflash_write,
}
use io_edge_hub_freertos.Storage.IntFlash.Laws.{
  intflash_erase-blank, intflash_write_keeps, cells-intflash_write,
}
use io_edge_hub_freertos.Storage.IntFlash.Success.{
  AllSucceed, intflash_erase-AllSucceed, intflash_write-AllSucceed,
}
use io_edge_hub_freertos.Boot.Can.Driver.{Rx}
use io_edge_hub_freertos.Boot.Can.{
  slot0_addr, slot0_size, Session, Frame, Boot, fw_reply, can_put, open_slot, progress, handle_data,
  handle_frame,
}

-- All the bytes, in order.
abbrev pub joined : List (List ℕ) → List ℕ
joined [] = []
joined (d ∷ ds) = d ++ joined ds

-- Data frames carry 1 to 8 bytes.
abbrev pub AllData : List (List ℕ) → Type 0
AllData [] = Unit {0}
AllData (d ∷ ds) = (0 < length d) × (length d ≤ 8) × AllBelow 256 d × AllData ds

-- A data frame, and a command with its argument, as `can_recv` gives them.
abbrev pub data_rx : List ℕ → Rx
data_rx d = record { ret = length d; id = 0x103; bytes = d }

abbrev pub cmd_rx : ℕ → ℕ → Rx
cmd_rx cmd arg = record { ret = 8; id = 0x101; bytes = put_le32 cmd ++ put_le32 arg }

-- Frames one after the other.
module _ {H : Type 0} (hal : Hal H) (key : List ℕ) (v : Version) where
  abbrev pub take_frames : List Rx → Boot H → Boot H
  take_frames [] b = b
  take_frames (r ∷ rs) b = take_frames rs (handle_frame hal key v r b).0

module _ {H : Type 0} (hal : Hal H) (cell : H → ℕ → ℕ) (part : IsIntFlash hal cell) where
  -- What the session has written.
  abbrev pub image : Boot H → List ℕ
  image b = cells (cell b.flash) slot0_addr b.s.written

  -- The session is open, and the slot still erased where the rest of the image goes.
  pub record Receiving (b : Boot H) : Type 0 where
    pub on : b.s.active ≡ true
    pub least : 64 ≤ b.s.total
    pub most : b.s.total ≤ slot0_size
    pub fits : b.s.written ≤ b.s.total
    pub blank :
        (i : ℕ) → slot0_addr + b.s.written ≤ i → i < slot0_addr + b.s.total → cell b.flash i ≡ 255

  module _ (all : AllSucceed hal) (key : List ℕ) where
    -- The session after a data frame that is taken.
    abbrev wrote : List ℕ → Boot H → Boot H
    wrote d b = record b {
      flash = (intflash_write hal b.flash (slot0_addr + b.s.written) d).0;
      s = record (b.s) { written = b.s.written + length d };
    }

    pub handle_data_taken :
        (d : List ℕ) (b : Boot H)
        → Receiving b
        → 0 < length d
        → length d ≤ 8
        → b.s.written + length d ≤ b.s.total
        → handle_data hal key d (length d) b ≡ progress hal key (wrote d b)
    unfolding handle_data
    handle_data_taken d b h some_bytes few room =
        let a = slot0_addr + b.s.written in
        let same = take_all d (length d) (omega arith) in
        if_false (not b.s.active) _ _ (ap not h.on)
        ∙ if_false (length d == 0 || ltb b.s.total (u32 (b.s.written + length d))) _ _ (
            ap₂ ◌||◌ (ne→== (length d) 0 (λ e. omega arith))
              (le→ltb b.s.total (u32 (b.s.written + length d)) (omega arith)))
        ∙ if_false (not (intflash_write hal b.flash a (take (length d) d)).1) _ _
            (ap not (intflash_write-AllSucceed hal all b.flash a (take (length d) d)))
        ∙ ap
            (λ (t : List ℕ). progress hal key (record b {
              flash = (intflash_write hal b.flash a t).0;
              s = record (b.s) { written = u32 (b.s.written + length d) };
            }))
            same
        ∙ ap
            (λ (n : ℕ). progress hal key (record b {
              flash = (intflash_write hal b.flash a d).0;
              s = record (b.s) { written = n };
            }))
            {x = u32 (b.s.written + length d)} {y = b.s.written + length d} (omega arith)

    wrote-Receiving :
        (d : List ℕ) (b : Boot H)
        → Receiving b
        → AllBelow 256 d
        → b.s.written + length d ≤ b.s.total
        → Receiving (wrote d b) × (image (wrote d b) ≡ image b ++ d)
    wrote-Receiving d b h small room =
        let a = slot0_addr + b.s.written in
        let f = (intflash_write hal b.flash a d).0 in
        let keeps = intflash_write_keeps hal cell part b.flash a d (omega arith) in
        let ok = intflash_write-AllSucceed hal all b.flash a d in
        (
          record {
            on = h.on;
            least = h.least;
            most = h.most;
            fits = room;
            blank = λ i lo hi. keeps i (inr (omega arith)) ∙ h.blank i (omega arith) hi;
          },
          cells-add (cell f) slot0_addr b.s.written (length d)
              ∙ ap₂ ◌++◌
                  (cells_cong (cell f) (cell b.flash) slot0_addr b.s.written
                    (λ i lo hi. keeps i (inl (omega arith))))
                  (cells-intflash_write hal cell part b.flash a d (omega arith) small
                    (λ i lo hi. h.blank i lo (omega arith)) ok),
        )

    pub open_slot-Receiving :
        (size : ℕ) (b : Boot H)
        → 64 ≤ size
        → size ≤ slot0_size
        → Receiving (open_slot hal key size b)
          × ((open_slot hal key size b).s.written ≡ 0)
          × ((open_slot hal key size b).s.total ≡ size)
    unfolding open_slot fw_reply can_put
    open_slot-Receiving size b lo hi =
        let len = align_4k size in
        let r = intflash_erase hal b.flash slot0_addr len in
        let ok : r.1 ≡ true =
          intflash_erase-AllSucceed hal all b.flash slot0_addr len (omega arith) (omega arith) in
        subst (λ (c : Boot H). Receiving c × (c.s.written ≡ 0) × (c.s.total ≡ size))
          (sym (
            if_false (ltb size 64 || ltb slot0_size size) _ _
              (ap₂ ◌||◌ (le→ltb size 64 lo) (le→ltb slot0_size size hi))
            ∙ if_false (not r.1) _ _ (ap not ok)))
          (
            record {
              on = refl;
              least = lo;
              most = hi;
              fits = omega arith;
              blank = λ i low high.
                  intflash_erase-blank hal cell part b.flash slot0_addr len i (omega arith)
                    (omega arith) (omega arith) ok;
            },
            refl,
            refl,
          )

    -- The reply changes neither the session nor the flash.
    progress-Receiving :
        (b : Boot H)
        → Receiving b
        → Receiving (progress hal key b)
          × (image (progress hal key b) ≡ image b)
          × ((progress hal key b).s ≡ b.s)
    unfolding progress fw_reply can_put
    progress-Receiving b h =
        let P : Boot H → Type 0 = λ c. Receiving c × (image c ≡ image b) × (c.s ≡ b.s) in
        let h' : (fs : List Frame) → Receiving (record b { sent = fs }) = λ fs. record {
          on = h.on;
          least = h.least;
          most = h.most;
          fits = h.fits;
          blank = h.blank;
        } in
        if_both P (b.s.written == b.s.total) _ _ (λ e. (h' _, refl, refl))
          λ _.
            if_both P (b.s.written % 512 == 0) _ _ (λ e. (h' _, refl, refl)) (λ e. (h, refl, refl))

    module _ (v : Version) where
      data_frame :
          (d : List ℕ) (b : Boot H)
          → length d ≤ 8
          → (handle_frame hal key v (data_rx d) b).0 ≡ handle_data hal key d (length d) b
      unfolding handle_frame
      data_frame d b few =
          ap (λ (r : Boot H × Bool). r.0)
            (if_false (length d == 0xFF) _ _ (ne→== (length d) 0xFF (λ e. omega arith)))

      -- Data frames that stay within the announced size.
      pub upload-image :
          (ds : List (List ℕ)) (b : Boot H)
          → Receiving b
          → AllData ds
          → b.s.written + length (joined ds) ≤ b.s.total
          → Receiving (take_frames hal key v (map data_rx ds) b)
            × (image (take_frames hal key v (map data_rx ds) b) ≡ image b ++ joined ds)
            × ((take_frames hal key v (map data_rx ds) b).s.total ≡ b.s.total)
            × ((take_frames hal key v (map data_rx ds) b).s.written
                ≡ b.s.written + length (joined ds))
      upload-image [] b h fine room = (h, sym (append-nil (image b)), refl, omega arith)
      upload-image (d ∷ ds) b h (some_bytes, few, small, fine) room =
          let size = length-append d (joined ds) in
          let w = wrote-Receiving d b h small (omega (arith, size)) in
          let g = progress-Receiving (wrote d b) w.0 in
          let step =
            data_frame d b few ∙ handle_data_taken d b h some_bytes few (omega (arith, size)) in
          let c = progress hal key (wrote d b) in
          let total : c.s.total ≡ b.s.total = ap (λ (s : Session). s.total) g.2 in
          let written : c.s.written ≡ b.s.written + length d =
            ap (λ (s : Session). s.written) g.2 in
          let (r, i, t, n) = upload-image ds c g.0 fine (omega (arith, size, total, written)) in
          subst
            (λ (e : Boot H).
              Receiving (take_frames hal key v (map data_rx ds) e)
              × (image (take_frames hal key v (map data_rx ds) e) ≡ image b ++ (d ++ joined ds))
              × ((take_frames hal key v (map data_rx ds) e).s.total ≡ b.s.total)
              × ((take_frames hal key v (map data_rx ds) e).s.written
                  ≡ b.s.written + length (d ++ joined ds)))
            (sym step)
            (
              r,
              i ∙ ap (λ t. t ++ joined ds) (g.1 ∙ w.1) ∙ append_assoc (image b) d (joined ds),
              t ∙ total,
              omega (arith, n, written, size),
            )

      pub take_frames-append :
          (rs ss : List Rx) (b : Boot H)
          → take_frames hal key v (rs ++ ss) b
            ≡ take_frames hal key v ss (take_frames hal key v rs b)
      take_frames-append [] ss b = refl
      take_frames-append (r ∷ rs) ss b = take_frames-append rs ss (handle_frame hal key v r b).0
