-- ===== src/Fw/Upgrade.antt =====
-- src/fw/fw_upg.c: one upgrade session at a time writes an image into slot 1 of the external flash,
-- a page at a time, and checks what the flash then holds. The flash is a parameter, and so is the
-- key's fingerprint, which the build generates. The lock has no counterpart: operations run one
-- after another.
pub mod Image
pub mod Finish
pub mod Tests
use io_edge_hub_freertos.Common.{
  ℕ, zero, suc, ◌+◌, ◌-◌, ◌*◌, ◌%◌, ◌^◌, Bool, true, false, not, ◌&&◌, ◌||◌,
}
use io_edge_hub_freertos.Common.{
  Option, none, some, List, [], ◌∷◌, ◌++◌, length, take, drop, byte_at,
}
use io_edge_hub_freertos.Common.{
  bit_and, bit_xor, u8, u16, u32, ◌<<◌, ◌>>◌, ltb, leb, ◌==◌, if◌then◌else◌,
}
use io_edge_hub_freertos.Util.Bytes.{get_le32}
use io_edge_hub_freertos.Config.Codec.{get_le16}
use io_edge_hub_freertos.Config.Flash.{Flash}

abbrev pub page_size : ℕ
page_size = 256

abbrev pub slot1_offset : ℕ
slot1_offset = 0

abbrev pub slot1_size : ℕ
slot1_size = 0x70000

abbrev pub keyhash_len : ℕ
keyhash_len = 32

-- The session: `page` is the page buffer up to `page_len`.
pub record Session : Type 0 where
  pub active : Bool
  pub failed : Bool
  pub total : ℕ
  pub written : ℕ
  pub page : List ℕ

-- One byte of `crc16_ccitt`.
unfoldable pub ccitt_byte : ℕ → ℕ → ℕ
ccitt_byte seed b =
    let e = u8 (bit_xor seed b) in
    let f = u8 (bit_xor e (e << 4)) in
    u16 (bit_xor (bit_xor (bit_xor (seed >> 8) (f << 8)) (f << 3)) (f >> 4))

unfoldable pub crc16_ccitt : ℕ → List ℕ → ℕ
crc16_ccitt seed [] = seed
crc16_ccitt seed (b ∷ bs) = crc16_ccitt (ccitt_byte seed b) bs

-- `memcmp(…) == 0`
unfoldable pub same_bytes : List ℕ → List ℕ → Bool
same_bytes [] [] = true
same_bytes [] (y ∷ ys) = false
same_bytes (x ∷ xs) [] = false
same_bytes (x ∷ xs) (y ∷ ys) = x == y && same_bytes xs ys

-- What `fw_upg_start` returns: 0, -1, -2 and -3.
pub data Started : Type 0 where
  started refused wrong_key busy : Started

unfoldable pub upg_abort : Session → Session
upg_abort s = record s { active = false; failed = false; written = 0; page = [] }

unfoldable pub upg_received : Session → ℕ
upg_received s = u32 (s.written + length s.page)

unfoldable pub upg_total : Session → ℕ
upg_total s = if s.active then s.total else 0

module _ {F : Type 0} (fl : Flash F) where
  unfoldable pub page_flush : Session → F → Session × F × Bool
  page_flush s f =
      let (f', done) = fl.write f (slot1_offset + s.written) s.page in
      if ltb 0 (length s.page) then (record s { page = [] }, f', done) else (s, f, true)

  -- The end of a round of `fw_upg_write`: a full page goes to the flash.
  unfoldable pub flush_full : Session → F → Session × F × Bool
  unfolding page_flush
  flush_full s f =
      let (s', f', done) = page_flush s f in
      if length s.page == page_size
      then (record s' { written = u32 (s'.written + page_size) }, f', done)
      else (s, f, true)

  -- The loop of `fw_upg_write`, with fuel; `bytes` are those left.
  unfoldable pub write_loop : ℕ → Session → F → List ℕ → Session × F × Bool
  write_loop zero s f bytes = (s, f, false)
  write_loop (suc fuel) s f [] = (s, f, true)
  write_loop (suc fuel) s f (b ∷ bs) =
      let room = page_size - length s.page in
      let chunk = if ltb (length (b ∷ bs)) room then length (b ∷ bs) else room in
      let (s', f', done) = flush_full (record s { page = s.page ++ take chunk (b ∷ bs) }) f in
      elim done [ true ↦ write_loop fuel s' f' (drop chunk (b ∷ bs)) | false ↦ (s', f', false) ]

  -- A round takes a byte at least while the buffer is not full at its start.
  unfoldable pub upg_write : Session → F → List ℕ → Session × F × Bool
  unfolding write_loop flush_full
  upg_write s f bytes =
      let (s', f', done) = write_loop (suc (length bytes)) s f bytes in
      if not s.active
      then (s, f, false)
      else if s.failed
      then (s, f, false)
      else if ltb s.total (u32 (s.written + length s.page + length bytes))
      then (record s { failed = true }, f, false)
      else if done
      then (s', f', true)
      else (record s' { failed = true }, f', false)

  -- The read-back of `fw_upg_finish_ex` in blocks of 64 bytes, with fuel; `none` is a read that
  -- fails.
  unfoldable pub crc_loop : ℕ → F → ℕ → ℕ → ℕ → Option ℕ
  crc_loop zero f total off crc = none
  crc_loop (suc fuel) f total off crc =
      let left = total - off in
      let n = if ltb 64 left then 64 else left in
      elim (ltb off total) [
        | false ↦ some crc
        | true ↦ elim (fl.read f (slot1_offset + off) n) [
          | none ↦ none
          | some block ↦ crc_loop fuel f total (off + 64) (crc16_ccitt crc block)
        ]
      ]

  -- The loop over the entries of `tlv_keyhash_get`, with fuel.
  unfoldable pub tlv_loop : ℕ → F → ℕ → ℕ → Option (List ℕ)
  tlv_loop zero f tlv_end off = none
  tlv_loop (suc fuel) f tlv_end off = elim (leb (u32 (off + 4)) tlv_end) [
    | false ↦ none
    | true ↦ elim (fl.read f (u32 (slot1_offset + off)) 4) [
      | none ↦ none
      | some ent ↦
          let len = get_le16 ent 2 in
          elim (get_le16 ent 0 == 1 && len == keyhash_len) [
            | true ↦ fl.read f (u32 (slot1_offset + off + 4)) keyhash_len
            | false ↦ tlv_loop fuel f tlv_end (u32 (off + 4 + bit_and (len + 3) (2 ^ 32 - 1 - 3)))
          ]
    ]
  ]

  -- The checks of `tlv_keyhash_get` on the area's header, and its loop; an area has at most 65535
  -- bytes, and an entry at least 4.
  unfoldable pub tlv_area : F → ℕ → Option (List ℕ)
  unfolding tlv_loop
  tlv_area f tlv_off = elim (fl.read f (u32 (slot1_offset + tlv_off)) 4) [
    | none ↦ none
    | some info ↦
        let size = get_le16 info 2 in
        let found = tlv_loop 65536 f (u32 (tlv_off + size)) (u32 (tlv_off + 4)) in
        if not (get_le16 info 0 == 0x6907) || size == 0 || ltb slot1_size (u32 (tlv_off + size))
        then none
        else found
  ]

  unfoldable pub tlv_keyhash_get : F → Option (List ℕ)
  unfolding tlv_area
  tlv_keyhash_get f = elim (fl.read f slot1_offset 32) [
    | none ↦ none
    | some hdr ↦
        let hdr_size = get_le16 hdr 8 in
        let tlv_off = u32 (hdr_size + get_le32 hdr 12) in
        let found = tlv_area f tlv_off in
        if not (get_le32 hdr 0 == 0x96F3B83D)
        then none
        else if not (hdr_size == 0x200)
        then none
        else if ltb slot1_size (u32 (tlv_off + 4)) || not (bit_and tlv_off 3 == 0)
        then none
        else found
  ]

  module _ (fw_keyhash : List ℕ) where
    unfoldable pub upg_start : Session → F → ℕ → Option (List ℕ) → Session × F × Started
    unfolding same_bytes
    upg_start s f total keyhash =
        let (f', done) = fl.erase f slot1_offset slot1_size in
        let mine : Bool = elim keyhash [ none ↦ true | some k ↦ same_bytes k fw_keyhash ] in
        if s.active
        then (s, f, busy)
        else if ltb total 64 || ltb slot1_size total
        then (s, f, refused)
        else if not mine
        then (s, f, wrong_key)
        else if not done
        then (s, f', refused)
        else (
          record { active = true; failed = false; total = total; written = 0; page = [] },
          f',
          started,
        )

    -- The checks of `fw_upg_finish_ex` after the last page is out. The blocks are fewer than the
    -- bytes, so the fuel of one more than these is enough.
    unfoldable pub image_ok : F → ℕ → ℕ → Bool → Bool
    unfolding crc_loop tlv_keyhash_get same_bytes
    image_ok f total crc_expect check_crc =
        let crc = crc_loop (suc total) f total 0 0 in
        let hash = tlv_keyhash_get f in
        (not check_crc || elim crc [ none ↦ false | some c ↦ c == crc_expect ])
        && elim hash [ none ↦ false | some k ↦ same_bytes k fw_keyhash ]

    -- A session that had failed keeps its page buffer.
    unfoldable pub upg_finish_ex : Session → F → ℕ → Bool → Session × F × Bool
    unfolding image_ok page_flush
    upg_finish_ex s f crc_expect check_crc =
        let (s1, f1, flushed) = page_flush (record s { active = false }) f in
        let len = u32 (s1.written + length s.page) in
        let done = record s1 { failed = false; written = 0 } in
        if not s.active
        then (s, f, false)
        else if s.failed
        then (record s { active = false; failed = false; written = 0 }, f, false)
        else if not flushed
        then (done, f1, false)
        else if not (len == s.total)
        then (done, f1, false)
        else (done, f1, image_ok f1 s.total crc_expect check_crc)

    unfoldable pub upg_finish : Session → F → ℕ → Session × F × Bool
    unfolding upg_finish_ex
    upg_finish s f crc_expect = upg_finish_ex s f crc_expect true
