-- ===== src/Web/Base64.antt =====
-- src/web/ws.c: Base64. A text is the list of its characters' codes.
pub mod RoundTrip
pub mod Standard
mod Tests
use io_edge_hub_freertos.Common.{
  ℕ, zero, suc, ◌+◌, ◌-◌, ◌*◌, Bool, true, false, not, ◌&&◌, ◌||◌, Option, none, some,
}
use io_edge_hub_freertos.Common.{
  List, [], ◌∷◌, ◌++◌, length, get_or, bit_and, bit_or, u8, u32, ◌<<◌, ◌>>◌, ltb, leb, ◌==◌,
}
use io_edge_hub_freertos.Common.{if◌then◌else◌}

-- "A…Za…z0…9+/"
unfoldable pub b64_tab : List ℕ
b64_tab =
    65 ∷ 66 ∷ 67 ∷ 68 ∷ 69 ∷ 70 ∷ 71 ∷ 72 ∷ 73 ∷ 74 ∷ 75 ∷ 76 ∷ 77 ∷ 78 ∷ 79 ∷ 80 ∷ 81 ∷ 82 ∷ 83
    ∷ 84 ∷ 85 ∷ 86 ∷ 87 ∷ 88 ∷ 89 ∷ 90 ∷ 97 ∷ 98 ∷ 99 ∷ 100 ∷ 101 ∷ 102 ∷ 103 ∷ 104 ∷ 105 ∷ 106
    ∷ 107 ∷ 108 ∷ 109 ∷ 110 ∷ 111 ∷ 112 ∷ 113 ∷ 114 ∷ 115 ∷ 116 ∷ 117 ∷ 118 ∷ 119 ∷ 120 ∷ 121 ∷ 122
    ∷ 48 ∷ 49 ∷ 50 ∷ 51 ∷ 52 ∷ 53 ∷ 54 ∷ 55 ∷ 56 ∷ 57 ∷ 43 ∷ 47 ∷ []

-- `b64_tab[(v >> k) & 0x3F]`
unfoldable pub b64_char : ℕ → ℕ → ℕ
unfolding b64_tab
b64_char v k = get_or b64_tab (bit_and (v >> k) 0x3F) 0

-- Three bytes a round; at the end one or two, with `=` for what is missing.
unfoldable pub b64_encode : List ℕ → List ℕ
unfolding b64_char
b64_encode [] = []
b64_encode (a ∷ []) = let v = u32 (a << 16) in b64_char v 18 ∷ b64_char v 12 ∷ 61 ∷ 61 ∷ []
b64_encode (a ∷ b ∷ []) =
    let v = bit_or (u32 (a << 16)) (b << 8) in
    b64_char v 18 ∷ b64_char v 12 ∷ b64_char v 6 ∷ 61 ∷ []
b64_encode (a ∷ b ∷ c ∷ rest) =
    let v = bit_or (bit_or (u32 (a << 16)) (b << 8)) c in
    b64_char v 18 ∷ b64_char v 12 ∷ b64_char v 6 ∷ b64_char v 0 ∷ b64_encode rest

-- `none` is -1.
unfoldable pub b64_val : ℕ → Option ℕ
b64_val ch =
    if leb 65 ch && leb ch 90
    then some (ch - 65)
    else if leb 97 ch && leb ch 122
    then some (ch - 97 + 26)
    else if leb 48 ch && leb ch 57
    then some (ch - 48 + 52)
    else if ch == 43
    then some 62
    else if ch == 47
    then some 63
    else none

-- The variables of `b64_decode`; `out` is `dst` up to `o`.
pub record Decoding : Type 0 where
  pub acc : ℕ
  pub nbits : ℕ
  pub out : List ℕ

-- One round of its loop; `none` is the return of -1.
unfoldable pub b64_step : ℕ → Decoding → ℕ → Option Decoding
unfolding b64_val
b64_step dst_max d ch = elim (b64_val ch) [
  | none ↦ if ch == 61 || ch == 32 || ch == 13 || ch == 10 then some d else none
  | some v ↦
      let acc = bit_or (u32 (d.acc << 6)) v in
      let nbits = d.nbits + 6 in
      if ltb nbits 8
      then some (record { acc = acc; nbits = nbits; out = d.out })
      else if leb dst_max (length d.out)
      then none
      else some
          (record { acc = acc; nbits = nbits - 8; out = d.out ++ (u8 (acc >> (nbits - 8)) ∷ []) })
]

unfoldable pub b64_loop : ℕ → Decoding → List ℕ → Option Decoding
b64_loop dst_max d [] = some d
b64_loop dst_max d (ch ∷ rest) = elim (b64_step dst_max d ch) [
  | none ↦ none
  | some d' ↦ b64_loop dst_max d' rest
]

unfoldable pub b64_decode : List ℕ → ℕ → Option (List ℕ)
unfolding b64_loop b64_step
b64_decode src dst_max = elim (b64_loop dst_max (record { acc = 0; nbits = 0; out = [] }) src) [
  | none ↦ none
  | some d ↦ some d.out
]
