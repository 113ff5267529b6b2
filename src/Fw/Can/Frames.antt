-- ===== src/Fw/Can/Frames.antt =====
-- What the frames of an upgrade over CAN do to the session and to the key buffer.
use io_edge_hub_freertos.Common.{
  ℕ, suc, ◌+◌, ◌-◌, ◌*◌, ◌%◌, ◌≤◌, ◌<◌, ◌≡◌, refl, ◌∙◌, arith, true, false,
}
use io_edge_hub_freertos.Common.{◌&&◌, none, some, List, [], ◌∷◌, ◌++◌, length, take, set, byte_at}
use io_edge_hub_freertos.Common.{
  length-set, length-take, get_or-set_self, get_or-set_ne, u8, u32, ltb, leb, ◌==◌,
}
use io_edge_hub_freertos.Common.{
  if◌then◌else◌, Bool-cases, inl, inr, ltb→lt, ==→eq, take_all, ◌<<◌, bit_or,
}
use io_edge_hub_freertos.Config.Flash.{Flash, IsNor, InPage}
use io_edge_hub_freertos.Fw.Upgrade.{Session, slot1_size, upg_write, upg_received, upg_total}
use io_edge_hub_freertos.Fw.Upgrade.Image.{image, Receiving, Took, upg_write-Took}
use io_edge_hub_freertos.Fw.Can.{
  offset, update_success, fw_reply, handle_fw_data, Key, put_bytes, handle_keyhash,
}

module _ {F : Type 0} (fl : Flash F) (cell : F → ℕ → ℕ) (nor : IsNor fl cell)
    (good : (f : F) (a : ℕ) (bs : List ℕ)
      → InPage a (length bs)
      → a + length bs ≤ slot1_size
      → (fl.write f a bs).1 ≡ true) where
  -- A data frame to a session that receives and has not failed, within the announced total and on
  -- a NOR flash whose program calls within a page of the slot succeed: its bytes are added to the image, and the reply is
  -- success with the total once that is reached, else the offset at every multiple of 512 bytes,
  -- else nothing.
  pub handle_fw_data-image :
      (s : Session) (f : F) (d : List ℕ) (dlc : ℕ)
      → s.active ≡ true
      → s.failed ≡ false
      → Receiving fl cell s f
      → dlc ≤ length d
      → s.written + length s.page + dlc ≤ s.total
      → s.total ≤ slot1_size
      → (image fl cell (handle_fw_data fl s f d dlc).0 (handle_fw_data fl s f d dlc).1
          ≡ image fl cell s f ++ take dlc d)
        × ((handle_fw_data fl s f d dlc).2 ≡ (
            if s.written + length s.page + dlc == s.total
            then some (fw_reply update_success s.total)
            else if (s.written + length s.page + dlc) % 512 == 0
            then some (fw_reply offset (s.written + length s.page + dlc))
            else none))
  unfolding handle_fw_data upg_received upg_total
  handle_fw_data-image s f d dlc on ok v within fits room = rw handled (took.appended, refl)
    where
      size : length (take dlc d) ≡ dlc
      size = omega (arith, length-take dlc d)

      took : Took fl cell nor good s f (take dlc d) (upg_write fl s f (take dlc d))
      took = upg_write-Took fl cell nor good s f (take dlc d) on ok v (omega (arith, size)) room

      got :
          u32 (
            (upg_write fl s f (take dlc d)).0.written
            + length (upg_write fl s f (take dlc d)).0.page)
          ≡ s.written + length s.page + dlc
      got = omega (arith, took.count, size)

      handled : handle_fw_data fl s f d dlc ≡ (
        (upg_write fl s f (take dlc d)).0,
        (upg_write fl s f (take dlc d)).1,
        if s.written + length s.page + dlc == s.total
            then some (fw_reply update_success s.total)
            else if (s.written + length s.page + dlc) % 512 == 0
            then some (fw_reply offset (s.written + length s.page + dlc))
            else none,
      )
      handled = ground (arith, got, took.done, took.same_active, took.same_total)

pub length-put_bytes :
    (buf : List ℕ) (i : ℕ) (bs : List ℕ) → length (put_bytes buf i bs) ≡ length buf
unfolding put_bytes
length-put_bytes buf i [] = refl
length-put_bytes buf i (b ∷ bs) = length-put_bytes (set buf i b) (i + 1) bs ∙ length-set buf i b

pub byte_at-put_bytes :
    (buf : List ℕ) (i : ℕ) (bs : List ℕ) (j : ℕ)
    → i + length bs ≤ length buf
    → byte_at (put_bytes buf i bs) j
      ≡ (if leb i j && ltb j (i + length bs) then byte_at bs (j - i) else byte_at buf j)
unfolding put_bytes
byte_at-put_bytes buf i [] j h = ground arith
byte_at-put_bytes buf i (b ∷ bs) j h =
    byte_at-put_bytes (set buf i b) (i + 1) bs j (omega (arith, length-set buf i b))
    ∙ elim (Bool-cases (ltb i j)) [
      | inl above ↦
          let e : j - i ≡ suc (j - (i + 1)) = omega (arith, ltb→lt _ _ above) in
          rw e (ground (arith, get_or-set_ne buf i j b 0))
      | inr below ↦ elim (Bool-cases (i == j)) [
        | inl same ↦
            let e : j - i ≡ 0 = omega (arith, ==→eq _ _ same) in
            rw e (ground (arith, get_or-set_self buf i b 0))
        | inr less ↦ ground (arith, get_or-set_ne buf i j b 0)
      ]
    ]

-- A key frame of a number below 5 with all the bytes of its part puts them at their place in the
-- 32-byte buffer, leaves the other bytes of the buffer as they were, and marks its part as there.
byte_at-handle_keyhash :
    (k : Key) (seq : ℕ) (part : List ℕ) (dlc j : ℕ)
    → seq < 5
    → length k.rx_keybuf ≡ 32
    → length part ≡ (if seq == 4 then 4 else 7)
    → length part < dlc
    → (byte_at (handle_keyhash k (seq ∷ part) dlc).rx_keybuf j ≡ (
        if leb (seq * 7) j && ltb j (seq * 7 + length part)
        then byte_at part (j - seq * 7)
        else byte_at k.rx_keybuf j))
      × ((handle_keyhash k (seq ∷ part) dlc).key_chunk_mask
          ≡ u8 (bit_or k.key_chunk_mask (u8 (1 << seq))))
unfolding handle_keyhash
byte_at-handle_keyhash k seq part dlc j h size len enough = ground (
  arith,
  take_all part (if seq == 4 then 4 else 7) (omega arith),
  byte_at-put_bytes k.rx_keybuf (seq * 7) part j (ground arith),
)
