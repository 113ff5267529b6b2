-- ===== src/Boot/Can/Safety.antt =====
-- What no sequence of frames can do: change the boot loader, or have an image counted as installed
-- that has not come whole.
use io_edge_hub_freertos.Common.{
  ℕ, suc, ◌+◌, ◌%◌, ◌<◌, ◌≤◌, ◌≡◌, refl, ◌∙◌, arith, Bool, true, false,
}
use io_edge_hub_freertos.Common.{
  not, ◌&&◌, ◌||◌, inl, List, [], ◌∷◌, length, take, length-take, u8, u32,
}
use io_edge_hub_freertos.Common.{ltb, leb, ◌==◌, if◌then◌else◌}
use io_edge_hub_freertos.Common.{==→eq}
use io_edge_hub_freertos.Common.{bit_and}
use io_edge_hub_freertos.Util.Bytes.{get_le32}
use io_edge_hub_freertos.Fw.Upgrade.{same_bytes}
use io_edge_hub_freertos.Fw.Can.{version_loop}
use io_edge_hub_freertos.Net.UdpCfg.{Version}
use io_edge_hub_freertos.Storage.IntFlash.{
  Hal, IsIntFlash, align_4k, intflash_erase, intflash_write,
}
use io_edge_hub_freertos.Storage.IntFlash.Laws.{intflash_erase_keeps_boot, intflash_write_keeps}
use io_edge_hub_freertos.Boot.Can.Driver.{Rx}
use io_edge_hub_freertos.Boot.Can.{
  slot0_addr, slot0_size, Session, Code, version, build_version, Boot, fw_reply, can_put,
  send_trace, put_versions, send_version_string, handle_keyhash, open_slot, cmd_start, cmd_confirm,
  handle_cmd, progress, handle_data, handle_frame,
}

denied : {c : Bool} → not c ≡ false → c ≡ true
denied {c} h = ground arith

-- The announced size is that of an image, and what is written does not pass it.
abbrev pub Sized : Session → Type 0
Sized s = (64 ≤ s.total) × (s.total ≤ slot0_size) × (s.written ≤ s.total)

module _ {H : Type 0} (hal : Hal H) (cell : H → ℕ → ℕ) (part : IsIntFlash hal cell) (f0 : H) where
  -- The boot loader is the one of `f0`; a session that is open has a size; and only a session of
  -- which all has come, and which has ended, is installed.
  pub record Safe (b : Boot H) : Type 0 where
    pub kept : (i : ℕ) → i < slot0_addr → cell b.flash i ≡ cell f0 i
    pub opened : b.s.active ≡ true → Sized b.s
    pub whole :
        b.s.installed ≡ true → Sized b.s × (b.s.written ≡ b.s.total) × (b.s.confirmed ≡ true)

  -- What holds of both branches of a test holds of the test.
  either :
      (c : Bool) (x y : Boot H)
      → (c ≡ true → Safe x)
      → (c ≡ false → Safe y)
      → Safe (if c then x else y)
  either true x y p q = p refl
  either false x y p q = q refl

  either_first :
      (c : Bool) (x y : Boot H × Bool)
      → (c ≡ true → Safe x.0)
      → (c ≡ false → Safe y.0)
      → Safe (if c then x else y).0
  either_first true x y p q = p refl
  either_first false x y p q = q refl

  put_versions-Safe : (ds : List (List ℕ)) (b : Boot H) → Safe b → Safe (put_versions ds b)
  unfolding put_versions can_put
  put_versions-Safe [] b h = h
  put_versions-Safe (d ∷ ds) b h =
      put_versions-Safe ds (can_put 0x105 d b)
        (record { kept = h.kept; opened = h.opened; whole = h.whole })

  send_version_string-Safe :
      (ver : List ℕ) (len : ℕ) (b : Boot H) → Safe b → Safe (send_version_string ver len b)
  unfolding send_version_string
  send_version_string-Safe ver len b h = put_versions-Safe (version_loop (suc len) ver len 0 0) b h

  fw_reply-Safe : (c : Code) (arg : ℕ) (b : Boot H) → Safe b → Safe (fw_reply c arg b)
  unfolding fw_reply can_put
  fw_reply-Safe c arg b h = record { kept = h.kept; opened = h.opened; whole = h.whole }

  handle_keyhash-Safe : (d : List ℕ) (dlc : ℕ) (b : Boot H) → Safe b → Safe (handle_keyhash d dlc b)
  unfolding handle_keyhash
  handle_keyhash-Safe d dlc b h =
      either _ _ _ (λ e. h) (λ e. record { kept = h.kept; opened = h.opened; whole = h.whole })

  module _ (key : List ℕ) where
    open_slot-Safe :
        (size : ℕ) (b : Boot H) → b.s.installed ≡ false → Safe b → Safe (open_slot hal key size b)
    unfolding open_slot fw_reply can_put
    open_slot-Safe size b new h =
        let keeps : (i : ℕ)
            → i < slot0_addr
            → cell (intflash_erase hal b.flash slot0_addr (align_4k size)).0 i ≡ cell f0 i =
          λ i lo.
            intflash_erase_keeps_boot hal cell part b.flash slot0_addr (align_4k size) i
              (omega arith) lo
            ∙ h.kept i lo in
        let done = (intflash_erase hal b.flash slot0_addr (align_4k size)).1 in
        either (ltb size 64 || ltb slot0_size size) _ _
          (λ e. record { kept = h.kept; opened = h.opened; whole = h.whole })
          λ fits.
            either (not done) _ _ (λ e. record { kept = keeps; opened = h.opened; whole = h.whole })
              (λ e. record {
                kept = keeps;
                opened = λ on. (ground arith, ground arith, omega arith);
                whole = λ i. absurd (cc (new, i));
              })

    cmd_start-Safe :
        (size : ℕ) (b : Boot H) → b.s.installed ≡ false → Safe b → Safe (cmd_start hal key size b)
    unfolding cmd_start send_trace fw_reply can_put
    cmd_start-Safe size b new h =
        either (bit_and b.s.key_mask 31 == 31 && not (same_bytes b.s.keybuf key)) _ _
          (λ e. record { kept = h.kept; opened = h.opened; whole = h.whole })
          (λ e.
            open_slot-Safe size _ new
              (record { kept = h.kept; opened = h.opened; whole = h.whole }))

    cmd_confirm-Safe : (b : Boot H) → b.s.installed ≡ false → Safe b → Safe (cmd_confirm hal key b)
    unfolding cmd_confirm fw_reply can_put
    cmd_confirm-Safe b new h =
        either (not b.s.active) _ _
          (λ e. record { kept = h.kept; opened = h.opened; whole = h.whole })
          λ on.
            either (not (b.s.written == b.s.total)) _ _
              (λ e. record {
                kept = h.kept;
                opened = λ o. absurd (cc o);
                whole = λ i. absurd (cc (new, i));
              })
              (λ e. record {
                kept = h.kept;
                opened = λ o. absurd (cc o);
                whole = λ i. (h.opened (denied on), ==→eq _ _ (denied e), refl);
              })

    handle_cmd-Safe :
        (v : Version) (d : List ℕ) (dlc : ℕ) (b : Boot H)
        → b.s.installed ≡ false
        → Safe b
        → Safe (handle_cmd hal key v d dlc b)
    unfolding handle_cmd fw_reply can_put
    handle_cmd-Safe v d dlc b new h =
        let cmd = get_le32 d 0 in
        either (not (dlc == 8)) _ _
          (λ e. record { kept = h.kept; opened = h.opened; whole = h.whole })
          λ _.
            either (cmd == 0) _ _ (λ e. cmd_start-Safe (get_le32 d 4) b new h)
              λ _.
                either (cmd == 1) _ _ (λ e. cmd_confirm-Safe b new h)
                  λ _.
                    either (cmd == 2) _ _
                      (λ e.
                        send_version_string-Safe (build_version v 24)
                          (u8 (length (build_version v 24))) _
                          (fw_reply-Safe version (length (build_version v 24)) b h))
                      λ _.
                        either (cmd == 3) _ _
                          (λ e. record {
                            kept = h.kept;
                            opened = h.opened;
                            whole = λ i. absurd (cc (new, i));
                          })
                          (λ e. h)

    progress-Safe : (b : Boot H) → Safe b → Safe (progress hal key b)
    unfolding progress fw_reply can_put
    progress-Safe b h =
        either (b.s.written == b.s.total) _ _
          (λ e. record { kept = h.kept; opened = h.opened; whole = h.whole })
          λ _.
            either (b.s.written % 512 == 0) _ _
              (λ e. record { kept = h.kept; opened = h.opened; whole = h.whole }) (λ e. h)

    handle_data-Safe :
        (d : List ℕ) (dlc : ℕ) (b : Boot H)
        → dlc < 256
        → b.s.installed ≡ false
        → Safe b
        → Safe (handle_data hal key d dlc b)
    unfolding handle_data fw_reply can_put
    handle_data-Safe d dlc b small new h =
        let a = slot0_addr + b.s.written in
        let w = intflash_write hal b.flash a (take dlc d) in
        either (not b.s.active) _ _
          (λ e. record { kept = h.kept; opened = h.opened; whole = h.whole })
          λ on.
            let sized = h.opened (denied on) in
            let keeps : (i : ℕ) → i < slot0_addr → cell w.0 i ≡ cell f0 i = λ i lo.
              intflash_write_keeps hal cell part b.flash a (take dlc d)
                (omega (arith, sized, length-take dlc d)) i (inl (omega arith))
              ∙ h.kept i lo in
            either (dlc == 0 || ltb b.s.total (u32 (b.s.written + dlc))) _ _
              (λ e. record {
                kept = h.kept;
                opened = λ o. absurd (cc o);
                whole = λ i. absurd (cc (new, i));
              })
              λ room.
                either (not w.1) _ _
                  (λ e. record {
                    kept = keeps;
                    opened = λ o. absurd (cc o);
                    whole = λ i. absurd (cc (new, i));
                  })
                  (λ e. progress-Safe _ (record {
                    kept = keeps;
                    opened = λ o. (sized.0, sized.1, ground arith);
                    whole = λ i. absurd (cc (new, i));
                  }))

    -- Whatever frame comes to a session that is not installed, with whatever bytes.
    pub handle_frame-Safe :
        (v : Version) (r : Rx) (b : Boot H)
        → r.ret < 256
        → b.s.installed ≡ false
        → Safe b
        → Safe (handle_frame hal key v r b).0
    unfolding handle_frame
    handle_frame-Safe v r b small new h =
        either_first (r.ret == 0xFF) _ _ (λ e. h)
          λ _.
            either_first (r.id == 0x101) _ _
              (λ e.
                either (leb 4 r.ret) _ _ (λ e. handle_cmd-Safe v r.bytes r.ret b new h) (λ e. h))
              λ _.
                either_first (r.id == 0x103) _ _ (λ e. handle_data-Safe r.bytes r.ret b small new h)
                  λ _.
                    either_first (r.id == 0x104) _ _
                      (λ e.
                        either (leb 1 r.ret) _ _ (λ e. handle_keyhash-Safe r.bytes r.ret b h)
                          (λ e. h))
                      (λ e. h)
