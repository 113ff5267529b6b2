-- ===== src/Web/Base64/Standard.antt =====
-- Base64 as RFC 4648 defines it, and that the code's encoder is it.
use io_edge_hub_freertos.Common.{ℕ, ◌+◌, ◌-◌, ◌*◌, ◌/◌, ◌%◌, ◌≡◌, refl, ap, ap₂, ◌∙◌, arith, true}
use io_edge_hub_freertos.Common.{
  List, [], ◌∷◌, get_or, AllBelow, bit_or, u32, ◌<<◌, ◌>>◌, ltb, ◌==◌, if◌then◌else◌, ==→eq,
}
use io_edge_hub_freertos.Common.Bits.{bit_and_low, holds_below, holds_below-lt}
use io_edge_hub_freertos.Web.Base64.{b64_tab, b64_char, b64_encode}
use io_edge_hub_freertos.Web.Base64.RoundTrip.{join2, join3}

-- Section 4, table 1: the character of six bits.
unfoldable pub alphabet : ℕ → ℕ
alphabet v =
    if ltb v 26
    then 65 + v
    else if ltb v 52
    then 97 + (v - 26)
    else if ltb v 62
    then 48 + (v - 52)
    else if v == 62
    then 43
    else 47

-- Three octets are four characters; at the end zero bits and `=` are added.
unfoldable pub base64 : List ℕ → List ℕ
unfolding alphabet
base64 [] = []
base64 (a ∷ []) = alphabet (a / 4) ∷ alphabet (a % 4 * 16) ∷ 61 ∷ 61 ∷ []
base64 (a ∷ b ∷ []) =
    alphabet (a / 4) ∷ alphabet (a % 4 * 16 + b / 16) ∷ alphabet (b % 16 * 4) ∷ 61 ∷ []
base64 (a ∷ b ∷ c ∷ rest) =
    alphabet (a / 4)
    ∷ alphabet (a % 4 * 16 + b / 16)
    ∷ alphabet (b % 16 * 4 + c / 64)
    ∷ alphabet (c % 64)
    ∷ base64 rest

table : holds_below 64 (λ k. get_or b64_tab k 0 == alphabet k) ≡ true
unfolding holds_below b64_tab alphabet
table = refl

b64_char-alphabet : (v k d : ℕ) → (v >> k) % 64 ≡ d → b64_char v k ≡ alphabet d
unfolding b64_char
b64_char-alphabet v k d e =
    ap (λ t. get_or b64_tab t 0) (bit_and_low 6 (v >> k) ∙ e)
    ∙ ==→eq _ _
        (holds_below-lt 64 (λ n. get_or b64_tab n 0 == alphabet n) d (omega (arith, e)) table)

pub b64_encode-base64 : (bytes : List ℕ) → AllBelow 256 bytes → b64_encode bytes ≡ base64 bytes
unfolding b64_encode base64
b64_encode-base64 [] below = refl
b64_encode-base64 (a ∷ []) (ha, _) =
    let v = u32 (a << 16) in
    ap₂ (λ x y. x ∷ y ∷ 61 ∷ 61 ∷ []) (b64_char-alphabet v 18 (a / 4) (omega arith))
      (b64_char-alphabet v 12 (a % 4 * 16) (omega arith))
b64_encode-base64 (a ∷ b ∷ []) (ha, (hb, _)) =
    let v = bit_or (u32 (a << 16)) (b << 8) in
    let e = join2 a b ha hb in
    ap₂ ◌∷◌ (b64_char-alphabet v 18 (a / 4) (omega (arith, e))) (
      ap₂ (λ x y. x ∷ y ∷ 61 ∷ []) (b64_char-alphabet v 12 (a % 4 * 16 + b / 16) (omega (arith, e)))
        (b64_char-alphabet v 6 (b % 16 * 4) (omega (arith, e))))
b64_encode-base64 (a ∷ b ∷ c ∷ rest) (ha, (hb, (hc, below))) =
    let v = bit_or (bit_or (u32 (a << 16)) (b << 8)) c in
    let e = join3 a b c ha hb hc in
    ap₂ ◌∷◌ (b64_char-alphabet v 18 (a / 4) (omega (arith, e))) (
      ap₂ ◌∷◌ (b64_char-alphabet v 12 (a % 4 * 16 + b / 16) (omega (arith, e))) (
        ap₂ ◌∷◌ (b64_char-alphabet v 6 (b % 16 * 4 + c / 64) (omega (arith, e))) (
          ap₂ ◌∷◌ (b64_char-alphabet v 0 (c % 64) (omega (arith, e)))
            (b64_encode-base64 rest below))))
