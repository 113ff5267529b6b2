-- ===== src/Fw/Upgrade/Finish.antt =====
-- The end of a session: what is read back and what it is compared with.
use io_edge_hub_freertos.Common.{ℕ, zero, suc, ◌+◌, ◌-◌, ◌≤◌, ◌<◌, ◌≡◌, refl, sym, ap, ◌∙◌, arith}
use io_edge_hub_freertos.Common.{Bool, true, false, ◌&&◌, some, none, List, [], ◌∷◌, ◌++◌, length}
use io_edge_hub_freertos.Common.{
  append-nil, ltb, ◌==◌, if◌then◌else◌, Bool-cases, inl, inr, ◌⊎◌, ==→eq, ltb→lt, ltb→le,
}
use io_edge_hub_freertos.Config.Flash.{Flash, IsNor, InPage, cells}
use io_edge_hub_freertos.Fw.Upgrade.{
  Session, slot1_size, page_flush, ccitt_byte, slot1_offset, crc16_ccitt, crc_loop,
}
use io_edge_hub_freertos.Fw.Upgrade.{
  upg_start, started, upg_write, upg_finish_ex, image_ok, tlv_keyhash_get, same_bytes,
}
use io_edge_hub_freertos.Fw.Upgrade.Image.{image, Receiving, cells-add, written-cells}

pub crc16_ccitt-append :
    (seed : ℕ) (xs ys : List ℕ) → crc16_ccitt seed (xs ++ ys) ≡ crc16_ccitt (crc16_ccitt seed xs) ys
unfolding crc16_ccitt
crc16_ccitt-append seed [] ys = refl
crc16_ccitt-append seed (x ∷ xs) ys = crc16_ccitt-append (ccitt_byte seed x) xs ys

-- The next block of at most 64 bytes, and the bytes after it.
abbrev block : ℕ → ℕ → ℕ
block total off = if ltb 64 (total - off) then 64 else total - off

cells-block :
    (c : ℕ → ℕ) (total off : ℕ)
    → cells c off (total - off)
      ≡ cells c off (block total off) ++ cells c (off + 64) (total - (off + 64))
cells-block c total off = elim (Bool-cases (ltb 64 (total - off))) [
  | inl more ↦
      let e : total - off ≡ 64 + (total - (off + 64)) = omega (arith, ltb→lt _ _ more) in
      rw more (ap (cells c off) e ∙ cells-add c off 64 (total - (off + 64)))
  | inr last ↦
      let e : total - (off + 64) ≡ 0 = omega (arith, ltb→le _ _ last) in
      rw (last, e) (sym (append-nil (cells c off (total - off))))
]

nothing_left :
    (c : ℕ → ℕ) (w : ℕ) (xs : List ℕ)
    → ltb 0 (length xs) ≡ false
    → cells c 0 (w + length xs) ≡ cells c 0 w ++ xs
nothing_left c w [] e =
    ap (cells c 0) {x = w + 0} {y = w} (omega arith) ∙ sym (append-nil (cells c 0 w))
nothing_left c w (x ∷ xs) e = absurd (ground arith)

module _ {F : Type 0} (fl : Flash F) where
  -- What the image's own fingerprint says, in the flash after the last page is out.
  abbrev pub hash_ok : List ℕ → F → Bool
  hash_ok key f = elim (tlv_keyhash_get fl f) [ none ↦ false | some k ↦ same_bytes k key ]

module _ {F : Type 0} (fl : Flash F) (cell : F → ℕ → ℕ) where
  module _
      (reads : (f : F) (a n : ℕ)
        → a + n ≤ slot1_size
        → fl.read f a n ≡ some (cells (cell f) a n)) where
    crc_loop-block :
        (fuel : ℕ) (f : F) (total off crc : ℕ)
        → total ≤ slot1_size
        → ltb off total ≡ true
        → crc_loop fl (suc fuel) f total off crc
          ≡ crc_loop fl fuel f total
              (off + 64)
              (crc16_ccitt crc (cells (cell f) off (block total off)))
    unfolding crc_loop
    crc_loop-block fuel f total off crc room more =
        rw (more, crc_loop)
          (rw (reads f (slot1_offset + off) (block total off) (ground (arith, ltb→lt _ _ more))) (
            ap
              (λ k.
                crc_loop fl fuel f total (off + 64)
                  (crc16_ccitt crc (cells (cell f) k (block total off))))
              {x = slot1_offset + off} {y = off} (omega arith)))

    crc_loop-cells :
        (fuel : ℕ) (f : F) (total off crc : ℕ)
        → total ≤ slot1_size
        → total - off < fuel
        → crc_loop fl fuel f total off crc
          ≡ some (crc16_ccitt crc (cells (cell f) off (total - off)))
    crc_loop-cells zero f total off crc room h = absurd (omega arith)
    crc_loop-cells (suc fuel) f total off crc room h = elim (Bool-cases (ltb off total)) [
      | inl more ↦
          crc_loop-block fuel f total off crc room more
          ∙ crc_loop-cells fuel f total (off + 64)
              (crc16_ccitt crc (cells (cell f) off (block total off))) room
              (omega (arith, ltb→lt _ _ more))
          ∙ ap some (
              sym (
                crc16_ccitt-append crc (cells (cell f) off (block total off))
                  (cells (cell f) (off + 64) (total - (off + 64))))
              ∙ ap (crc16_ccitt crc) (sym (cells-block (cell f) total off)))
      | inr over ↦
          let e : total - off ≡ 0 = omega (arith, ltb→le _ _ over) in
          unfold crc_loop crc16_ccitt in rw (over, crc_loop) (rw e refl)
    ]

    image_ok_lem :
        (key : List ℕ) (f : F) (total expect : ℕ)
        → total ≤ slot1_size
        → image_ok fl key f total expect true
          ≡ ((crc16_ccitt 0 (cells (cell f) 0 total) == expect) && hash_ok fl key f)
    unfolding image_ok
    image_ok_lem key f total expect room =
        rw (crc_loop-cells (suc total) f total 0 0 room (omega arith)) (
          ap (λ k. (crc16_ccitt 0 (cells (cell f) 0 k) == expect) && hash_ok fl key f)
            {x = total - 0} {y = total} (omega arith))

    module _ (nor : IsNor fl cell)
        (good : (f : F) (a : ℕ) (bs : List ℕ)
          → InPage a (length bs)
          → a + length bs ≤ slot1_size
          → (fl.write f a bs).1 ≡ true) where
      page_flush-image :
          (s : Session) (f : F)
          → Receiving fl cell s f
          → ((page_flush fl s f).2 ≡ true)
            × ((page_flush fl s f).0.written ≡ s.written)
            × ((page_flush fl s f).0.active ≡ s.active)
            × (cells (cell (page_flush fl s f).1) 0 (s.written + length s.page) ≡ image fl cell s f)
      unfolding page_flush
      page_flush-image s f v = elim (Bool-cases (ltb 0 (length s.page))) [
        | inl some_left ↦ rw some_left (
          good f (slot1_offset + s.written) s.page (omega (arith, v.aligned, v.short))
              (omega (arith, v.fits)),
          refl,
          refl,
          ap (λ k. cells (cell (fl.write f k s.page).0) 0 (s.written + length s.page))
                {x = slot1_offset + s.written} {y = s.written} (omega arith)
              ∙ written-cells fl cell nor good f s.written s.page v.aligned (omega (arith, v.short))
                  v.fits (λ i lo hi. v.blank i lo (omega (arith, v.fits))),
        )
        | inr empty ↦ rw empty (refl, refl, refl, nothing_left (cell f) s.written s.page empty)
      ]

      -- The end, with the checksum, of a session that has received without a failure, on a NOR
      -- flash whose reads, and program calls within a page, succeed within the slot: afterwards the
      -- session is over and the flash
      -- begins with what was received; the result is success exactly when that is as long as
      -- announced, has the expected checksum, and the flash holds the fingerprint of the key.
      pub upg_finish_ex-image :
          (key : List ℕ) (s : Session) (f : F) (expect : ℕ)
          → s.active ≡ true
          → s.failed ≡ false
          → Receiving fl cell s f
          → ((upg_finish_ex fl key s f expect true).2 ≡ (
              (s.written + length s.page == s.total)
              && ((crc16_ccitt 0 (image fl cell s f) == expect)
                  && hash_ok fl key (upg_finish_ex fl key s f expect true).1)))
            × ((upg_finish_ex fl key s f expect true).0.active ≡ false)
            × (cells (cell (upg_finish_ex fl key s f expect true).1) 0 (s.written + length s.page)
                ≡ image fl cell s f)
      unfolding upg_finish_ex
      upg_finish_ex-image key s f expect on ok v =
          rw ended
            (verdict (Bool-cases (s.written + length s.page == s.total)), flushed.2, flushed.3)
        where
          s0 : Session
          s0 = record s { active = false }

          flushed :
              ((page_flush fl s0 f).2 ≡ true)
              × ((page_flush fl s0 f).0.written ≡ s.written)
              × ((page_flush fl s0 f).0.active ≡ false)
              × (cells (cell (page_flush fl s0 f).1) 0 (s.written + length s.page)
                  ≡ image fl cell s f)
          flushed =
              page_flush-image s0 f
                (record { aligned = v.aligned; short = v.short; fits = v.fits; blank = v.blank })

          f1 : F
          f1 = (page_flush fl s0 f).1

          ended : upg_finish_ex fl key s f expect true ≡ (
            record (page_flush fl s0 f).0 { failed = false; written = 0 },
            f1,
            (s.written + length s.page == s.total) && image_ok fl key f1 s.total expect true,
          )
          ended = ground (arith, flushed, v.fits)

          verdict :
              ((s.written + length s.page == s.total) ≡ true)
                ⊎ ((s.written + length s.page == s.total) ≡ false)
              → ((s.written + length s.page == s.total) && image_ok fl key f1 s.total expect true)
                ≡ ((s.written + length s.page == s.total)
                    && ((crc16_ccitt 0 (image fl cell s f) == expect) && hash_ok fl key f1))
          verdict (inl e) =
              let q : s.total ≡ s.written + length s.page = sym (==→eq _ _ e) in
              ap (λ b. (s.written + length s.page == s.total) && b)
                (image_ok_lem key f1 s.total expect (omega (arith, q, v.fits))
                  ∙ ap (λ t. (crc16_ccitt 0 t == expect) && hash_ok fl key f1)
                      (ap (cells (cell f1) 0) q ∙ flushed.3))
          verdict (inr e) = rw e refl

module _ {F : Type 0} (fl : Flash F) where
  -- A write that fails, for whatever reason, spoils the session: no end of it after that, with or
  -- without the checksum and whatever the flash then holds, is a success.
  pub upg_finish_ex-upg_write_failed :
      (key : List ℕ) (s : Session) (f g : F) (bytes : List ℕ) (expect : ℕ) (check : Bool)
      → (upg_write fl s f bytes).2 ≡ false
      → (upg_finish_ex fl key (upg_write fl s f bytes).0 g expect check).2 ≡ false
  unfolding upg_finish_ex upg_write
  upg_finish_ex-upg_write_failed key s f g bytes expect check bad = ground arith

same_bytes_refl : (xs : List ℕ) → same_bytes xs xs ≡ true
unfolding same_bytes
same_bytes_refl [] = refl
same_bytes_refl (x ∷ xs) = ground (arith, same_bytes_refl xs)

module _ {F : Type 0} (fl : Flash F) (cell : F → ℕ → ℕ) (nor : IsNor fl cell) where
  -- A start while no session is active, with a size that the slot can hold, the key's own
  -- fingerprint and an erase that succeeds opens a session that has received nothing and is ready
  -- to receive.
  pub upg_start-Receiving :
      (key : List ℕ) (s : Session) (f : F) (total : ℕ)
      → 64 ≤ total
      → total ≤ slot1_size
      → (fl.erase f slot1_offset slot1_size).1 ≡ true
      → s.active ≡ false
      → ((upg_start fl key s f total (some key)).2 ≡ started)
        × Receiving fl cell
            (upg_start fl key s f total (some key)).0
            (upg_start fl key s f total (some key)).1
        × (image fl cell
              (upg_start fl key s f total (some key)).0
              (upg_start fl key s f total (some key)).1
            ≡ [])
  unfolding upg_start
  upg_start-Receiving key s f total least most erased off = rw opened (
    refl,
    record {
      aligned = omega arith;
      short = omega arith;
      fits = omega arith;
      blank = λ i lo hi.
          nor.erase_blank f slot1_offset slot1_size i (omega arith) erased (omega arith)
            (omega arith);
    },
    refl,
  )
    where
      opened : upg_start fl key s f total (some key) ≡ (
        record { active = true; failed = false; total = total; written = 0; page = [] },
        (fl.erase f slot1_offset slot1_size).0,
        started,
      )
      opened = ground (arith, same_bytes_refl key)
