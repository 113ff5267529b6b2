-- ===== src/Fw/Udp/Transfer.antt =====
-- Data frames that are lost, repeated or out of order.
use mathlib.Core.Path.{subst}
use io_edge_hub_freertos.Common.{
  ℕ, zero, suc, ◌+◌, ◌-◌, ◌≤◌, ◌≡◌, refl, sym, ap, ap₂, ◌∙◌, arith, Bool, true, false, inl, inr,
}
use io_edge_hub_freertos.Common.{
  List, [], ◌∷◌, ◌++◌, length, take, drop, length-drop, ◌&&◌, u32, leb, ◌==◌, if◌then◌else◌, some,
  Option,
}
use io_edge_hub_freertos.Common.{Bool-cases, if_true, if_false, eq→==, ne→==, ==→eq}
use io_edge_hub_freertos.Util.Bytes.{get_le32, put_le32}
use io_edge_hub_freertos.Config.Flash.{Flash, IsNor, InPage}
use io_edge_hub_freertos.Fw.Upgrade.{slot1_size, upg_write, upg_received}
use io_edge_hub_freertos.Fw.Upgrade.Image.{image, Receiving, upg_write-Took}
use io_edge_hub_freertos.Fw.Udp.{Msg, Worker, received, on_data_v2, fw_task_step}

-- A frame 0x06 for the file `content`: its bytes are the offset, and that many of the file's bytes
-- from there on, one at least.
pub record IsSlice (content : List ℕ) (bytes : List ℕ) : Type 0 where
  pub some_bytes : 5 ≤ length bytes
  pub slice : drop 4 bytes ≡ take (length bytes - 4) (drop (get_le32 bytes 0) content)
  pub within : get_le32 bytes 0 + (length bytes - 4) ≤ length content

abbrev pub AllSlices : List ℕ → List Msg → Type 0
AllSlices content [] = Unit {0}
AllSlices content (m ∷ ms) = (m.cmd ≡ 6) × IsSlice content m.bytes × AllSlices content ms

take_nil : (n : ℕ) → Path (List ℕ) (take n []) []
take_nil zero = refl
take_nil (suc n) = refl

take-more : (n m : ℕ) (xs : List ℕ) → take n xs ++ take m (drop n xs) ≡ take (n + m) xs
take-more zero m xs = ap (λ k. take k xs) {x = m} {y = 0 + m} (omega arith)
take-more (suc n) m [] = take_nil m ∙ sym (take_nil (suc n + m))
take-more (suc n) m (x ∷ xs) =
    ap (λ t. x ∷ t) (take-more n m xs)
    ∙ ap (λ k. take k (x ∷ xs)) {x = suc (n + m)} {y = suc n + m} (omega arith)

module _ {F B : Type 0} (fl : Flash F) (cell : F → ℕ → ℕ) (nor : IsNor fl cell)
    (good : (f : F) (a : ℕ) (bs : List ℕ)
      → InPage a (length bs)
      → a + length bs ≤ slot1_size
      → (fl.write f a bs).1 ≡ true)
    (key : List ℕ) (mark : B → Bool → B × Bool) (content : List ℕ) where
  -- How much of the file has come.
  abbrev pub progress : Worker F B → ℕ
  progress w = w.s.written + length w.s.page

  -- The session receives the file, and has its first bytes.
  pub record IsPrefix (w : Worker F B) : Type 0 where
    pub on : w.s.active ≡ true
    pub ok : w.s.failed ≡ false
    pub receiving : Receiving fl cell w.s w.flash
    pub sized : w.s.total ≡ length content
    pub fits : length content ≤ slot1_size
    pub short : progress w ≤ length content
    pub so_far : image fl cell w.s w.flash ≡ take (progress w) content

  -- What a frame does: it is taken if it is the next one, else ignored.
  pub record Step (w : Worker F B) (bytes : List ℕ) (r : Worker F B × List ℕ) : Type 0 where
    pub prefix : IsPrefix r.0
    pub moved :
        progress r.0
        ≡ (if get_le32 bytes 0 == progress w then progress w + (length bytes - 4) else progress w)
    pub told : r.1 ≡ 6 ∷ put_le32 (progress r.0)

  taken :
      (w : Worker F B) (bytes : List ℕ)
      → IsPrefix w
      → IsSlice content bytes
      → (get_le32 bytes 0 == progress w) ≡ true
      → Step w bytes (
        record w {
          s = (upg_write fl w.s w.flash (drop 4 bytes)).0;
          flash = (upg_write fl w.s w.flash (drop 4 bytes)).1;
        },
        received fl key mark 6 (upg_write fl w.s w.flash (drop 4 bytes)).0,
      )
  unfolding upg_received
  taken w bytes h s next =
      let size : length (drop 4 bytes) ≡ length bytes - 4 = length-drop 4 bytes in
      let off : get_le32 bytes 0 ≡ progress w = ==→eq _ _ next in
      let took =
        upg_write-Took fl cell nor good w.s w.flash (drop 4 bytes) h.on h.ok h.receiving
          (omega (arith, size, s.within, off, h.sized)) (omega (arith, h.sized, h.fits)) in
      let s' = (upg_write fl w.s w.flash (drop 4 bytes)).0 in
      let grown : s'.written + length s'.page ≡ progress w + (length bytes - 4) =
        omega (arith, took.count, size) in
      record {
        prefix = record {
          on = took.same_active ∙ h.on;
          ok = took.same_failed ∙ h.ok;
          receiving = took.receiving;
          sized = took.same_total ∙ h.sized;
          fits = h.fits;
          short = omega (arith, grown, s.within, off);
          so_far =
              took.appended
              ∙ ap₂ ◌++◌ h.so_far (s.slice ∙ ap (λ k. take (length bytes - 4) (drop k content)) off)
              ∙ take-more (progress w) (length bytes - 4) content
              ∙ ap (λ k. take k content) (sym grown);
        };
        moved = grown ∙ sym (if_true (get_le32 bytes 0 == progress w) _ _ next);
        told =
            ap (λ n. 6 ∷ put_le32 n) {x = u32 (s'.written + length s'.page)}
              {y = s'.written + length s'.page} (omega (arith, grown, s.within, off, h.fits));
      }

  on_data_v2-Step :
      (w : Worker F B) (bytes : List ℕ)
      → IsPrefix w
      → IsSlice content bytes
      → Step w bytes (on_data_v2 fl key mark w bytes)
  unfolding on_data_v2 upg_received
  on_data_v2-Step w bytes h s =
      let here : u32 (progress w) ≡ progress w = omega (arith, h.short, h.fits) in
      elim (Bool-cases (get_le32 bytes 0 == progress w)) [
        | inl next ↦
            let test : (leb 5 (length bytes) && (get_le32 bytes 0 == u32 (progress w))) ≡ true =
              ground (arith, s.some_bytes, here) in
            subst (Step w bytes) (sym (if_true _ _ _ test)) (taken w bytes h s next)
        | inr other ↦
            let test : (leb 5 (length bytes) && (get_le32 bytes 0 == u32 (progress w))) ≡ false =
              ground (arith, here) in
            subst (Step w bytes) (sym (if_false _ _ _ test)) (record {
              prefix = h;
              moved = sym (if_false (get_le32 bytes 0 == progress w) _ _ other);
              told = ap (λ n. 6 ∷ put_le32 n) here;
            })
      ]

  fw_task_step_v2 :
      (w : Worker F B) (m : Msg)
      → m.cmd ≡ 6
      → fw_task_step fl key mark w m
        ≡ ((on_data_v2 fl key mark w m.bytes).0, some (on_data_v2 fl key mark w m.bytes).1)
  unfolding fw_task_step
  fw_task_step_v2 w m e =
      if_false (m.cmd == 1) _ _ (ne→== m.cmd 1 (λ one. omega arith))
      ∙ if_false (m.cmd == 2) _ _ (ne→== m.cmd 2 (λ two. omega arith))
      ∙ if_true (m.cmd == 6) _ _ (eq→== m.cmd 6 e)

  -- Messages one after the other.
  abbrev pub after : Worker F B → List Msg → Worker F B
  after w [] = w
  after w (m ∷ ms) = after (fw_task_step fl key mark w m).0 ms

  -- Frames 0x06 for a file of the announced length which the slot can hold, on a NOR flash whose
  -- program calls within a page of the slot succeed: however they are lost, repeated or put out of order, what the session has
  -- received is at every time the first bytes of the file, and no less than before.
  pub after-IsPrefix :
      (w : Worker F B) (ms : List Msg)
      → IsPrefix w
      → AllSlices content ms
      → IsPrefix (after w ms) × (progress w ≤ progress (after w ms))
  after-IsPrefix w [] h fine = (h, omega arith)
  after-IsPrefix w (m ∷ ms) h (cmd, slice, fine) =
      let s = on_data_v2-Step w m.bytes h slice in
      let w1 = (on_data_v2 fl key mark w m.bytes).0 in
      let (p, more) = after-IsPrefix w1 ms s.prefix fine in
      subst (λ (v : Worker F B). IsPrefix (after v ms) × (progress w ≤ progress (after v ms)))
        (sym (ap (λ (r : Worker F B × Option (List ℕ)). r.0) (fw_task_step_v2 w m cmd)))
        (p, ground (arith, s.moved, more))
