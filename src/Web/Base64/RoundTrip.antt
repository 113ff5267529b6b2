-- ===== src/Web/Base64/RoundTrip.antt =====
-- What was encoded is decoded again.
use io_edge_hub_freertos.Common.{
  ℕ, ◌+◌, ◌-◌, ◌*◌, ◌/◌, ◌%◌, ◌^◌, ◌≤◌, ◌<◌, ◌≡◌, refl, sym, ap, ◌∙◌, arith,
}
use io_edge_hub_freertos.Common.{
  Bool, true, false, Option, none, some, List, [], ◌∷◌, ◌++◌, append-nil, append_assoc, length,
}
use io_edge_hub_freertos.Common.{
  length-append, get_or, AllBelow, bit_or, u8, u32, ◌<<◌, ◌>>◌, ltb, leb, ◌==◌,
}
use io_edge_hub_freertos.Common.{==→eq}
use io_edge_hub_freertos.Common.Bits.{bit_and_low, bit_or_fields, holds_below, holds_below-lt}
use io_edge_hub_freertos.Web.Base64.{
  b64_tab, b64_char, b64_encode, b64_val, Decoding, b64_step, b64_loop, b64_decode,
}

same_val : ℕ → Option ℕ → Bool
same_val k none = false
same_val k (some v) = v == k

same_val_sound : (k : ℕ) (v : Option ℕ) → same_val k v ≡ true → v ≡ some k
unfolding same_val
same_val_sound k none e = absurd (cc)
same_val_sound k (some v) e = ap some (==→eq v k e)

val_table : holds_below 64 (λ k. same_val k (b64_val (get_or b64_tab k 0))) ≡ true
unfolding holds_below same_val b64_val b64_tab
val_table = refl

-- The table and the value of a character are inverse.
b64_val-tab : (k : ℕ) → k < 64 → b64_val (get_or b64_tab k 0) ≡ some k
b64_val-tab k h =
    same_val_sound k _
      (holds_below-lt 64 (λ n. same_val n (b64_val (get_or b64_tab n 0))) k h val_table)

-- A digit is six bits of the value.
b64_val-char : (v k : ℕ) → b64_val (b64_char v k) ≡ some ((v >> k) % 64)
unfolding b64_char
b64_val-char v k = rw (bit_and_low 6 (v >> k)) (b64_val-tab ((v >> k) % 64) (omega arith))

next_acc : (acc v : ℕ) → v < 64 → bit_or (u32 (acc << 6)) v ≡ u32 (acc << 6) + v
next_acc acc v h =
    let e : u32 (acc << 6) ≡ u32 (acc << 6) / 64 * 2 ^ 6 = omega arith in
    ap (λ t. bit_or t v) e ∙ bit_or_fields 6 (u32 (acc << 6) / 64) v h ∙ ap (λ t. t + v) (sym e)

pub join2 : (a b : ℕ) → a < 256 → b < 256 → bit_or (u32 (a << 16)) (b << 8) ≡ a * 65536 + b * 256
join2 a b ha hb =
    let e : u32 (a << 16) ≡ a * 2 ^ 16 = omega arith in
    rw e (omega (arith, bit_or_fields 16 a (b * 256) (omega arith)))

pub join3 :
    (a b c : ℕ)
    → a < 256
    → b < 256
    → c < 256
    → bit_or (bit_or (u32 (a << 16)) (b << 8)) c ≡ a * 65536 + b * 256 + c
join3 a b c ha hb hc =
    let e : a * 65536 + b * 256 ≡ (a * 256 + b) * 2 ^ 8 = omega arith in
    ap (λ t. bit_or t c) (join2 a b ha hb ∙ e) ∙ bit_or_fields 8 (a * 256 + b) c hc ∙ omega arith

abbrev shifted : ℕ → ℕ → ℕ
shifted acc v = u32 (acc << 6) + v

module _ (dst_max acc v k : ℕ) (out : List ℕ) where
  abbrev digit : ℕ
  digit = (v >> k) % 64

  -- The first digit of a group waits, and each further one completes a byte.
  step_first :
      b64_step dst_max (record { acc = acc; nbits = 0; out = out }) (b64_char v k)
      ≡ some (record { acc = shifted acc digit; nbits = 6; out = out })
  unfolding b64_step
  step_first = rw (b64_val-char v k, next_acc acc digit (omega arith), b64_step)

  step_byte :
      (n m y : ℕ)
      → n + 6 ≡ m + 8
      → u8 (shifted acc digit >> m) ≡ y
      → length out < dst_max
      → b64_step dst_max (record { acc = acc; nbits = n; out = out }) (b64_char v k)
        ≡ some (record { acc = shifted acc digit; nbits = m; out = out ++ (y ∷ []) })
  unfolding b64_step
  step_byte n m y e byte room =
      let low : ltb (n + 6) 8 ≡ false = ground arith in
      let short : leb dst_max (length out) ≡ false = ground arith in
      let left : n + 6 - 8 ≡ m = omega arith in
      rw (b64_val-char v k, next_acc acc digit (omega arith), low, short, left, b64_step)
        (ap (λ t. some (record { acc = shifted acc digit; nbits = m; out = out ++ (t ∷ []) })) byte)

loop_next :
    (dst_max : ℕ) (d d' : Decoding) (ch : ℕ) (rest : List ℕ)
    → b64_step dst_max d ch ≡ some d'
    → b64_loop dst_max d (ch ∷ rest) ≡ b64_loop dst_max d' rest
unfolding b64_loop
loop_next dst_max d d' ch rest e = rw (e, b64_loop)

module _ (dst_max acc a b c : ℕ) (out rest : List ℕ) where
  abbrev v : ℕ
  v = a * 65536 + b * 256 + c

  abbrev acc1 : ℕ
  acc1 = shifted acc ((v >> 18) % 64)

  abbrev acc2 : ℕ
  acc2 = shifted acc1 ((v >> 12) % 64)

  abbrev acc3 : ℕ
  acc3 = shifted acc2 ((v >> 6) % 64)

  abbrev acc4 : ℕ
  acc4 = shifted acc3 ((v >> 0) % 64)

  abbrev after1 : Decoding
  after1 = record { acc = acc2; nbits = 4; out = out ++ (a ∷ []) }

  abbrev after2 : Decoding
  after2 = record { acc = acc3; nbits = 2; out = (out ++ (a ∷ [])) ++ (b ∷ []) }

  abbrev after3 : Decoding
  after3 = record { acc = acc4; nbits = 0; out = out ++ (a ∷ b ∷ c ∷ []) }

  abbrev before : Decoding
  before = record { acc = acc; nbits = 0; out = out }

  module _ (ha : a < 256) (hb : b < 256) (hc : c < 256) where
    byte1 : u8 (acc2 >> 4) ≡ a
    byte1 = omega arith

    byte2 : u8 (acc3 >> 2) ≡ b
    byte2 = omega arith

    byte3 : u8 (acc4 >> 0) ≡ c
    byte3 = omega arith

    two_digits :
        length out < dst_max
        → b64_loop dst_max before (b64_char v 18 ∷ b64_char v 12 ∷ rest)
          ≡ b64_loop dst_max after1 rest
    two_digits room =
        loop_next dst_max before _ _ _ (step_first dst_max acc v 18 out)
        ∙ loop_next dst_max _ after1 _ rest (step_byte dst_max acc1 v 12 out 6 4 a refl byte1 room)

    third_digit :
        length out + 1 < dst_max
        → b64_loop dst_max after1 (b64_char v 6 ∷ rest) ≡ b64_loop dst_max after2 rest
    third_digit room = loop_next dst_max after1 after2 _ rest (
        step_byte dst_max acc2 v 6 (out ++ (a ∷ [])) 4 2 b refl byte2
          (omega (arith, length-append out (a ∷ []))))

    fourth_digit :
        length out + 2 < dst_max
        → b64_loop dst_max after2 (b64_char v 0 ∷ rest) ≡ b64_loop dst_max after3 rest
    fourth_digit room =
        loop_next dst_max after2 _ _ rest (
          step_byte dst_max acc3 v 0 ((out ++ (a ∷ [])) ++ (b ∷ [])) 2 0 c refl byte3
            (omega (arith, length-append out (a ∷ []), length-append (out ++ (a ∷ [])) (b ∷ []))))
        ∙ ap (λ o. b64_loop dst_max (record { acc = acc4; nbits = 0; out = o }) rest)
            (append_assoc (out ++ (a ∷ [])) (b ∷ []) (c ∷ [])
              ∙ append_assoc out (a ∷ []) (b ∷ c ∷ []))

-- A padding character changes nothing.
skip_padding : (dst_max : ℕ) (d : Decoding) → b64_loop dst_max d (61 ∷ []) ≡ some d
unfolding b64_loop b64_step b64_val
skip_padding dst_max d = refl

skip_two : (dst_max : ℕ) (d : Decoding) → b64_loop dst_max d (61 ∷ 61 ∷ []) ≡ some d
unfolding b64_loop b64_step b64_val
skip_two dst_max d = refl

b64_loop-encode :
    (dst_max acc : ℕ) (out xs : List ℕ)
    → AllBelow 256 xs
    → length out + length xs ≤ dst_max
    → (d : Decoding) × (b64_loop dst_max
          (record { acc = acc; nbits = 0; out = out })
          (b64_encode xs)
        ≡ some d)
      × (d.out ≡ out ++ xs)
unfolding b64_encode
b64_loop-encode dst_max acc out [] h room =
    unfold b64_loop in (record { acc = acc; nbits = 0; out = out }, refl, sym (append-nil out))
b64_loop-encode dst_max acc out (a ∷ []) h room =
    let e : u32 (a << 16) ≡ v dst_max acc a 0 0 out [] = omega arith in
    rw e (
      after1 dst_max acc a 0 0 out [],
      two_digits dst_max acc a 0 0 out (61 ∷ 61 ∷ []) h.0 (omega arith) (omega arith) (omega arith)
          ∙ skip_two dst_max (after1 dst_max acc a 0 0 out []),
      refl,
    )
b64_loop-encode dst_max acc out (a ∷ b ∷ []) h room =
    let e : bit_or (u32 (a << 16)) (b << 8) ≡ v dst_max acc a b 0 out [] =
      join2 a b h.0 h.1.0 ∙ omega arith in
    rw e (
      after2 dst_max acc a b 0 out [],
      two_digits dst_max acc a b 0 out (b64_char (v dst_max acc a b 0 out []) 6 ∷ 61 ∷ []) h.0 h.1.0
            (omega arith) (omega arith)
          ∙ third_digit dst_max acc a b 0 out (61 ∷ []) h.0 h.1.0 (omega arith) (omega arith)
          ∙ skip_padding dst_max (after2 dst_max acc a b 0 out []),
      append_assoc out (a ∷ []) (b ∷ []),
    )
b64_loop-encode dst_max acc out (a ∷ b ∷ c ∷ rest) h room =
    let e : bit_or (bit_or (u32 (a << 16)) (b << 8)) c ≡ v dst_max acc a b c out rest =
      join3 a b c h.0 h.1.0 h.1.1.0 in
    let text = b64_encode rest in
    let w = v dst_max acc a b c out rest in
    let (d, found, added) =
      b64_loop-encode dst_max (acc4 dst_max acc a b c out rest) (out ++ (a ∷ b ∷ c ∷ [])) rest
        h.1.1.1 (omega (arith, length-append out (a ∷ b ∷ c ∷ []))) in
    rw e (
      d,
      two_digits dst_max acc a b c out (b64_char w 6 ∷ b64_char w 0 ∷ text) h.0 h.1.0 h.1.1.0
            (omega arith)
          ∙ third_digit dst_max acc a b c out (b64_char w 0 ∷ text) h.0 h.1.0 h.1.1.0 (omega arith)
          ∙ fourth_digit dst_max acc a b c out text h.0 h.1.0 h.1.1.0 (omega arith)
          ∙ found,
      added ∙ append_assoc out (a ∷ b ∷ c ∷ []) rest,
    )

-- Bytes that were encoded are decoded to the same bytes, into a buffer that can hold them.
pub b64_decode-encode :
    (xs : List ℕ) (dst_max : ℕ)
    → AllBelow 256 xs
    → length xs ≤ dst_max
    → b64_decode (b64_encode xs) dst_max ≡ some xs
unfolding b64_decode
b64_decode-encode xs dst_max h room =
    let (d, found, added) = b64_loop-encode dst_max 0 [] xs h (omega arith) in
    rw (found, b64_decode) (ap some added)
