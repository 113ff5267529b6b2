-- ===== src/Boot/Can/Key.antt =====
-- The five frames that carry the fingerprint of the key, and the START after them.
use mathlib.Core.Path.{subst}
use io_edge_hub_freertos.Common.{
  ℕ, zero, suc, ◌+◌, ◌-◌, ◌*◌, ◌^◌, ◌<◌, ◌≡◌, refl, sym, ap, ap₂, ◌∙◌, arith,
}
use io_edge_hub_freertos.Common.{
  true, false, not, ◌&&◌, inl, inr, List, [], ◌∷◌, ◌++◌, length, take, drop, byte_at, take_all,
  length-take, length-drop, get_or_ext, byte_at-drop, bit_and, bit_or, u8, ◌<<◌, ltb, leb, ◌==◌,
  if◌then◌else◌,
}
use io_edge_hub_freertos.Common.{Bool-cases, if_true}
use io_edge_hub_freertos.Common.Bits.{holds_below, holds_below-lt}
use io_edge_hub_freertos.Util.Bytes.{put_le32}
use io_edge_hub_freertos.Fw.Upgrade.{same_bytes}
use io_edge_hub_freertos.Fw.Can.{put_bytes}
use io_edge_hub_freertos.Fw.Can.Frames.{byte_at-put_bytes, length-put_bytes}
use io_edge_hub_freertos.Net.UdpCfg.{Version}
use io_edge_hub_freertos.Storage.IntFlash.{Hal}
use io_edge_hub_freertos.Boot.Can.Driver.{Rx}
use io_edge_hub_freertos.Boot.Can.{
  Boot, handle_keyhash, handle_frame, cmd_start, fw_reply, can_put, send_trace,
}
use io_edge_hub_freertos.Boot.Can.Transfer.{cmd_rx, take_frames}
use io_edge_hub_freertos.Boot.Can.Install.{start_frame}

-- The buffer has the first `n` bytes of the fingerprint.
record Filled (k buf : List ℕ) (n : ℕ) : Type 0 where
  size : length buf ≡ 32
  same : (j : ℕ) → j < n → byte_at buf j ≡ byte_at k j

-- The bytes of part `seq`.
abbrev part_size : ℕ → ℕ
part_size seq = if seq == 4 then 4 else 7

abbrev pub key_rx : List ℕ → ℕ → Rx
key_rx k seq = record {
  ret = 1 + part_size seq;
  id = 0x104;
  bytes = seq ∷ take (part_size seq) (drop (seq * 7) k);
}

-- The frames 0 to 4.
abbrev pub key_frames : List ℕ → List Rx
key_frames k = key_rx k 0 ∷ key_rx k 1 ∷ key_rx k 2 ∷ key_rx k 3 ∷ key_rx k 4 ∷ []

take_twice : (n : ℕ) (xs : List ℕ) → take n (take n xs) ≡ take n xs
take_twice n xs = take_all (take n xs) n (omega (arith, length-take n xs))

byte_at-take : (n : ℕ) (xs : List ℕ) (j : ℕ) → j < n → byte_at (take n xs) j ≡ byte_at xs j
byte_at-take zero xs j h = absurd (omega arith)
byte_at-take (suc n) [] j h = refl
byte_at-take (suc n) (x ∷ xs) zero h = refl
byte_at-take (suc n) (x ∷ xs) (suc j) h = byte_at-take n xs j (omega arith)

module _ {H : Type 0} (hal : Hal H) (key : List ℕ) (v : Version) (k : List ℕ)
    (len : length k ≡ 32) where
  abbrev mask_with : ℕ → ℕ → ℕ
  mask_with seq m = u8 (bit_or m (u8 (1 << seq)))

  -- What a key frame leaves.
  abbrev with_part : ℕ → Boot H → Boot H
  with_part seq b = record b {
    s = record (b.s) {
      keybuf = put_bytes b.s.keybuf (seq * 7) (take (part_size seq) (drop (seq * 7) k));
      key_mask = mask_with seq b.s.key_mask;
    };
  }

  put_part :
      (seq : ℕ) (b : Boot H) {p q : List ℕ}
      → p ≡ q
      → Path
          (Boot H)
          (record b {
            s = record (b.s) {
              keybuf = put_bytes b.s.keybuf (seq * 7) p;
              key_mask = mask_with seq b.s.key_mask;
            };
          })
          (record b {
            s = record (b.s) {
              keybuf = put_bytes b.s.keybuf (seq * 7) q;
              key_mask = mask_with seq b.s.key_mask;
            };
          })
  put_part seq b e =
      ap
        (λ (t : List ℕ). record b {
          s = record (b.s) {
            keybuf = put_bytes b.s.keybuf (seq * 7) t;
            key_mask = mask_with seq b.s.key_mask;
          };
        })
        e

  key_frame :
      (seq : ℕ) (b : Boot H)
      → seq < 5
      → (handle_frame hal key v (key_rx k seq) b).0 ≡ with_part seq b
  unfolding handle_frame handle_keyhash
  key_frame zero b h = put_part 0 b (take_twice 7 (drop 0 k))
  key_frame (suc zero) b h = put_part 1 b (take_twice 7 (drop 7 k))
  key_frame (suc (suc zero)) b h = put_part 2 b (take_twice 7 (drop 14 k))
  key_frame (suc (suc (suc zero))) b h = put_part 3 b (take_twice 7 (drop 21 k))
  key_frame (suc (suc (suc (suc zero)))) b h = put_part 4 b (take_twice 4 (drop 28 k))
  key_frame (suc (suc (suc (suc (suc seq))))) b h = absurd (omega arith)

  part_length :
      (seq : ℕ) → seq < 5 → length (take (part_size seq) (drop (seq * 7) k)) ≡ part_size seq
  part_length seq h =
      ground (arith, length-take (part_size seq) (drop (seq * 7) k), length-drop (seq * 7) k)

  with_part-Filled :
      (seq : ℕ) (b : Boot H)
      → seq < 5
      → Filled k b.s.keybuf (seq * 7)
      → Filled k (with_part seq b).s.keybuf (seq * 7 + part_size seq)
  with_part-Filled seq b h f =
      let part = take (part_size seq) (drop (seq * 7) k) in
      let size = part_length seq h in
      record {
        size = length-put_bytes b.s.keybuf (seq * 7) part ∙ f.size;
        same = λ j p.
            byte_at-put_bytes b.s.keybuf (seq * 7) part j (ground (arith, f.size))
            ∙ elim (Bool-cases (ltb j (seq * 7))) [
              | inl old ↦ ground (arith, f.same j)
              | inr new ↦
                  if_true (leb (seq * 7) j && ltb j (seq * 7 + length part)) _ _ (ground arith)
                  ∙ byte_at-take (part_size seq) (drop (seq * 7) k) (j - seq * 7) (ground arith)
                  ∙ byte_at-drop (seq * 7) (j - seq * 7) k
                  ∙ ap (byte_at k) {x = seq * 7 + (j - seq * 7)} {y = j} (ground arith)
            ];
      }

  abbrev keyed : Boot H → Boot H
  keyed b = with_part 4 (with_part 3 (with_part 2 (with_part 1 (with_part 0 b))))

  key_frames_lem : (b : Boot H) → take_frames hal key v (key_frames k) b ≡ keyed b
  key_frames_lem b =
      ap (take_frames hal key v (key_rx k 1 ∷ key_rx k 2 ∷ key_rx k 3 ∷ key_rx k 4 ∷ []))
        (key_frame 0 b (omega arith))
      ∙ ap (take_frames hal key v (key_rx k 2 ∷ key_rx k 3 ∷ key_rx k 4 ∷ []))
          (key_frame 1 _ (omega arith))
      ∙ ap (take_frames hal key v (key_rx k 3 ∷ key_rx k 4 ∷ [])) (key_frame 2 _ (omega arith))
      ∙ ap (take_frames hal key v (key_rx k 4 ∷ [])) (key_frame 3 _ (omega arith))
      ∙ key_frame 4 _ (omega arith)

  keyed_buffer : (b : Boot H) → length b.s.keybuf ≡ 32 → (keyed b).s.keybuf ≡ k
  keyed_buffer b size =
      let f0 : Filled k b.s.keybuf (0 * 7) = record {
        size = size;
        same = λ j p. absurd (omega arith);
      } in
      let f1 = with_part-Filled 0 b (omega arith) f0 in
      let f2 = with_part-Filled 1 (with_part 0 b) (omega arith) f1 in
      let f3 = with_part-Filled 2 (with_part 1 (with_part 0 b)) (omega arith) f2 in
      let f4 = with_part-Filled 3 (with_part 2 (with_part 1 (with_part 0 b))) (omega arith) f3 in
      let f5 =
        with_part-Filled 4 (with_part 3 (with_part 2 (with_part 1 (with_part 0 b)))) (omega arith)
          f4 in
      get_or_ext 0 (keyed b).s.keybuf k (f5.size ∙ sym len)
        (λ i p. f5.same i (omega (arith, f5.size)))

  abbrev all_parts : ℕ → ℕ
  all_parts m = mask_with 4 (mask_with 3 (mask_with 2 (mask_with 1 (mask_with 0 m))))

  full_mask : holds_below 256 (λ m. bit_and (all_parts m) 31 == 31) ≡ true
  unfolding holds_below
  full_mask = refl

  -- The five key frames in order, then a START, on a session with a 32-byte key buffer and an 8-bit
  -- mask: when the fingerprint that they carry is not the firmware's, the flash is not touched, the
  -- session is open or not as before, and the answer, after the trace frame, is the key error.
  pub start_wrong_key :
      (b : Boot H) (size : ℕ)
      → size < 2 ^ 32
      → length b.s.keybuf ≡ 32
      → b.s.key_mask < 256
      → same_bytes k key ≡ false
      → let b' = take_frames hal key v (key_frames k ++ cmd_rx 0 size ∷ []) b in
        (b'.flash ≡ b.flash)
        × (b'.s.active ≡ b.s.active)
        × (b'.s.key_mask ≡ 0)
        × (b'.sent
            ≡ b.sent
              ++ record { id = 0x108; bytes = 6 ∷ [] } ∷ []
              ++ record { id = 0x102; bytes = put_le32 6 ++ put_le32 0 } ∷ [])
  unfolding cmd_start fw_reply send_trace can_put
  start_wrong_key b size small room mask other =
      let c = keyed b in
      let full : (bit_and c.s.key_mask 31 == 31) ≡ true =
        holds_below-lt 256 (λ m. bit_and (all_parts m) 31 == 31) b.s.key_mask mask full_mask in
      let wrong : (bit_and c.s.key_mask 31 == 31 && not (same_bytes c.s.keybuf key)) ≡ true =
        ap₂ (λ x y. x && not y) full
          (ap (λ buf. same_bytes buf key) (keyed_buffer b room) ∙ other) in
      subst
        (λ (b' : Boot H).
          (b'.flash ≡ b.flash)
          × (b'.s.active ≡ b.s.active)
          × (b'.s.key_mask ≡ 0)
          × (b'.sent
              ≡ b.sent
                ++ record { id = 0x108; bytes = 6 ∷ [] } ∷ []
                ++ record { id = 0x102; bytes = put_le32 6 ++ put_le32 0 } ∷ []))
        (sym (
          ap (λ (c : Boot H). (handle_frame hal key v (cmd_rx 0 size) c).0) (key_frames_lem b)
          ∙ start_frame hal key v size c small
          ∙ if_true (bit_and c.s.key_mask 31 == 31 && not (same_bytes c.s.keybuf key)) _ _ wrong))
        (refl, refl, if_true (bit_and c.s.key_mask 31 == 31) _ _ full, refl)
