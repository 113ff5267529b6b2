-- ===== src/Boot/Can/Driver/Frames.antt =====
-- A frame that is sent arrives as it was.
use io_edge_hub_freertos.Common.{
  ℕ, zero, suc, ◌+◌, ◌-◌, ◌*◌, ◌^◌, ◌<◌, ◌≤◌, ◌≡◌, refl, sym, ap, ap₂, ◌∙◌, arith, some,
}
use io_edge_hub_freertos.Common.{
  List, [], ◌∷◌, ◌++◌, length, take, drop, replicate, take-append, length-append, length-replicate,
  AllBelow, AllBelow-append, bit_and, bit_or, Bool, true, false, u8, u32, ◌<<◌, ◌>>◌, ltb,
  if◌then◌else◌,
}
use io_edge_hub_freertos.Common.{le→ltb, ◌%◌}
use io_edge_hub_freertos.Common.Bits.{
  bit_or_fields, bit_or-zero, bit_or_comm, bit_and_low, bit_and-shifted, bit_and_single, bit_at,
}
use io_edge_hub_freertos.Boot.Can.Driver.{
  Sent, Rx, send_loop, free_box, completion, can_send, recv_loop, can_recv, delivered,
}

if_same : (c : Bool) (x : ℕ) → (if c then x else x) ≡ x
if_same true x = refl
if_same false x = refl

send_loop-zeros : (n i dl dh : ℕ) → send_loop (replicate n 0) i dl dh ≡ (dl, dh)
unfolding send_loop
send_loop-zeros zero i dl dh = refl
send_loop-zeros (suc n) i dl dh =
    let nothing : (k : ℕ) → u32 (0 << k) ≡ 0 = λ k. omega arith in
    ap₂ (send_loop (replicate n 0) (i + 1))
      (ap (λ z. if ltb i 4 then bit_or dl z else dl) (nothing (8 * i))
        ∙ ap (λ z. if ltb i 4 then z else dl) (bit_or-zero dl)
        ∙ if_same (ltb i 4) dl)
      (ap (λ z. if ltb i 4 then dh else bit_or dh z) (nothing (8 * (i - 4)))
        ∙ ap (λ z. if ltb i 4 then dh else z) (bit_or-zero dh)
        ∙ if_same (ltb i 4) dh)
    ∙ send_loop-zeros n (i + 1) dl dh

send_loop-pad :
    (bytes : List ℕ) (n i dl dh : ℕ)
    → send_loop (bytes ++ replicate n 0) i dl dh ≡ send_loop bytes i dl dh
unfolding send_loop
send_loop-pad [] n i dl dh = send_loop-zeros n i dl dh
send_loop-pad (b ∷ bs) n i dl dh = send_loop-pad bs n _ _ _

take-recv_loop : (n m i dl dh : ℕ) → n ≤ m → take n (recv_loop m i dl dh) ≡ recv_loop n i dl dh
unfolding recv_loop
take-recv_loop zero m i dl dh h = refl
take-recv_loop (suc n) zero i dl dh h = absurd (omega arith)
take-recv_loop (suc n) (suc m) i dl dh h =
    ap (λ t. u8 ((if ltb i 4 then dl else dh) >> u8 (bit_and i 3 * 8)) ∷ t)
      (take-recv_loop n m (i + 1) dl dh (omega arith))

length-recv_loop : (n i dl dh : ℕ) → length (recv_loop n i dl dh) ≡ n
unfolding recv_loop
length-recv_loop zero i dl dh = refl
length-recv_loop (suc n) i dl dh = ap suc (length-recv_loop n (i + 1) dl dh)

-- A byte above the bytes that are there.
or_above : (k acc b : ℕ) → acc < 2 ^ k → bit_or acc (b * 2 ^ k) ≡ b * 2 ^ k + acc
or_above k acc b h = bit_or_comm acc (b * 2 ^ k) ∙ bit_or_fields k b acc h

four_bytes :
    (a b c d : ℕ)
    → a < 256
    → b < 256
    → c < 256
    → d < 256
    → bit_or
        (bit_or (bit_or (bit_or 0 (u32 (a << 0))) (u32 (b << 8))) (u32 (c << 16)))
        (u32 (d << 24))
      ≡ d * 2 ^ 24 + c * 2 ^ 16 + b * 2 ^ 8 + a
four_bytes a b c d ha hb hc hd =
    let B = u32 (b << 8) in
    let C = u32 (c << 16) in
    let D = u32 (d << 24) in
    let e0 : bit_or 0 (u32 (a << 0)) ≡ a =
      bit_or_comm 0 (u32 (a << 0)) ∙ bit_or-zero (u32 (a << 0)) ∙ omega arith in
    let e1 : bit_or a B ≡ b * 2 ^ 8 + a =
      ap (bit_or a) {x = B} {y = b * 2 ^ 8} (omega arith) ∙ or_above 8 a b ha in
    let e2 : bit_or (b * 2 ^ 8 + a) C ≡ c * 2 ^ 16 + (b * 2 ^ 8 + a) =
      ap (bit_or (b * 2 ^ 8 + a)) {x = C} {y = c * 2 ^ 16} (omega arith)
      ∙ or_above 16 (b * 2 ^ 8 + a) c (omega arith) in
    let e3 : bit_or (c * 2 ^ 16 + (b * 2 ^ 8 + a)) D ≡ d * 2 ^ 24 + (c * 2 ^ 16 + (b * 2 ^ 8 + a)) =
      ap (bit_or (c * 2 ^ 16 + (b * 2 ^ 8 + a))) {x = D} {y = d * 2 ^ 24} (omega arith)
      ∙ or_above 24 (c * 2 ^ 16 + (b * 2 ^ 8 + a)) d (omega arith) in
    ap (λ x. bit_or (bit_or (bit_or x B) C) D) e0
    ∙ ap (λ x. bit_or (bit_or x C) D) e1
    ∙ ap (λ x. bit_or x D) e2
    ∙ e3
    ∙ omega arith

eight :
    (xs : List ℕ)
    → length xs ≡ 8
    → AllBelow 256 xs
    → recv_loop 8 0 (send_loop xs 0 0 0).0 (send_loop xs 0 0 0).1 ≡ xs
unfolding recv_loop send_loop
eight (a ∷ b ∷ c ∷ d ∷ e ∷ f ∷ g ∷ h ∷ []) len (ha, (hb, (hc, (hd, (he, (hf, (hg, (hh, _)))))))) =
    let lo = four_bytes a b c d ha hb hc hd in
    let hi = four_bytes e f g h he hf hg hh in ap₂ (recv_loop 8 0) lo hi ∙ ground arith
eight _ len small = absurd (omega arith)

zeros_below : (n : ℕ) → AllBelow 256 (replicate n 0)
zeros_below zero = tt
zeros_below (suc n) = (omega arith, zeros_below n)

-- The identifier in TIR, and what a receiver makes of it.
tir_id : (id : ℕ) → bit_or (u32 (bit_and id 0x7FF << 21)) 1 ≡ bit_and id 0x7FF * 2 ^ 21 + 1
tir_id id =
    let low : bit_and id 0x7FF ≡ id % 2048 = bit_and_low 11 id in
    let e : u32 (bit_and id 0x7FF << 21) ≡ bit_and id 0x7FF * 2 ^ 21 = omega arith in
    ap (λ t. bit_or t 1) e ∙ bit_or_fields 21 (bit_and id 0x7FF) 1 (omega arith)

module _ (x : ℕ) (small : x < 2048) where
  standard : bit_and (x * 2 ^ 21) 4 ≡ 0
  unfolding bit_at
  standard = omega (arith, bit_and_single 2 (x * 2 ^ 21))

  rir_id : (bit_and (x * 2 ^ 21) (2 ^ 32 - 2 ^ 21) >> 21) ≡ x
  rir_id = omega (arith, bit_and-shifted 21 x 2047, bit_and_low 11 x)

received_id :
    (id : ℕ)
    → (delivered (record {
      tdlr = 0;
      tdhr = 0;
      tdtr = 0;
      tir = bit_or (u32 (bit_and id 0x7FF << 21)) 1;
    })).rir
      ≡ bit_and id 0x7FF * 2 ^ 21
received_id id = omega (arith, tir_id id)

-- What `can_recv` stores for such a frame.
can_recv_frame :
    (rx : Rx) (id dl dh n : ℕ)
    → n ≤ 8
    → let r = can_recv rx (
        some (
          delivered (record {
            tdlr = dl;
            tdhr = dh;
            tdtr = n;
            tir = bit_or (u32 (bit_and id 0x7FF << 21)) 1;
          }))) in
      (r.ret ≡ n) × (r.id ≡ bit_and id 0x7FF) × (r.bytes ≡ recv_loop n 0 dl dh ++ drop n rx.bytes)
unfolding can_recv
can_recv_frame rx id dl dh n few =
    let low : bit_and id 0x7FF ≡ id % 2048 = bit_and_low 11 id in
    let e = received_id id in
    let dlc : bit_and n 15 ≡ n = bit_and_low 4 n ∙ omega arith in
    let std = standard (bit_and id 0x7FF) (omega arith) in
    let fits : ltb 8 n ≡ false = le→ltb 8 n few in
    rw (e, std, dlc, fits) (refl, rir_id (bit_and id 0x7FF) (omega arith), refl)

read_back :
    (rx : Rx) (bytes : List ℕ)
    → length bytes ≤ 8
    → AllBelow 256 bytes
    → take (length bytes) (
        recv_loop (length bytes) 0 (send_loop bytes 0 0 0).0 (send_loop bytes 0 0 0).1
        ++ drop (length bytes) rx.bytes)
      ≡ bytes
read_back rx bytes few small =
    let n = length bytes in
    let (dl, dh) = send_loop bytes 0 0 0 in
    let zeros : List ℕ = replicate (8 - n) 0 in
    let size : length (bytes ++ zeros) ≡ 8 =
      omega (arith, length-append bytes zeros, length-replicate {A = ℕ} (8 - n) 0) in
    let below : AllBelow 256 (bytes ++ zeros) =
      AllBelow-append 256 bytes zeros small (zeros_below (8 - n)) in
    take-append (recv_loop n 0 dl dh) (drop n rx.bytes) n (sym (length-recv_loop n 0 dl dh))
    ∙ sym (take-recv_loop n 8 0 dl dh few)
    ∙ ap (take n) (
        ap (λ (w : ℕ × ℕ). recv_loop 8 0 w.0 w.1) (sym (send_loop-pad bytes (8 - n) 0 0 0))
        ∙ eight (bytes ++ zeros) size below)
    ∙ take-append bytes zeros n refl

-- A frame of at most 8 bytes given to `can_send` while a transmit mailbox is empty: it is put into
-- the first empty one, and when a receiver's mailbox then holds it, `can_recv` gives its length, the
-- low 11 bits of its identifier, and its bytes.
pub can_recv-can_send :
    (rx : Rx) (tsr box id : ℕ) (polls : ℕ → ℕ) (bytes : List ℕ)
    → free_box tsr ≡ some box
    → length bytes ≤ 8
    → AllBelow 256 bytes
    → (t : Sent) × (can_send tsr polls id bytes ≡ some t)
      × (t.box ≡ box)
      × ((can_recv rx (some (delivered t.mailbox))).ret ≡ length bytes)
      × ((can_recv rx (some (delivered t.mailbox))).id ≡ bit_and id 0x7FF)
      × (take (length bytes) (can_recv rx (some (delivered t.mailbox))).bytes ≡ bytes)
unfolding can_send
can_recv-can_send rx tsr box id polls bytes free few small =
    let n = length bytes in
    let (dl, dh) = send_loop bytes 0 0 0 in
    let fits : ltb 8 n ≡ false = le→ltb 8 n few in
    let out : Sent = record {
      box = box;
      mailbox = record {
        tdlr = dl;
        tdhr = dh;
        tdtr = n;
        tir = bit_or (u32 (bit_and id 0x7FF << 21)) 1;
      };
      tsr = completion 100000 polls box;
    } in
    let got = can_recv_frame rx id dl dh n few in
    (
      out,
      rw (fits, free) refl,
      refl,
      got.0,
      got.1,
      ap (take n) got.2 ∙ read_back rx bytes few small,
    )
