-- ===== src/Web/Sha1/Padding.antt =====
-- SHA-1 as the standard puts it: the padded text, block by block.
use io_edge_hub_freertos.Common.{
  ℕ, zero, suc, ◌+◌, ◌-◌, ◌*◌, ◌/◌, ◌%◌, ◌^◌, ◌≤◌, ◌<◌, ◌≡◌, refl, sym, ap, ◌∙◌, arith,
}
use io_edge_hub_freertos.Common.{true, false, List, [], ◌∷◌, ◌++◌, length, length-append}
use io_edge_hub_freertos.Common.{
  take, drop, take-drop, length-take, length-drop, replicate, length-replicate,
}
use io_edge_hub_freertos.Common.{◌==◌, ◌<<◌}
use io_edge_hub_freertos.Web.Sha1.{
  Words, Context, initial, sha1_init, sha1_block, sha1_update, pad_loop, be64,
}
use io_edge_hub_freertos.Web.Sha1.{output, sha1_final, sha1}
use io_edge_hub_freertos.Web.Sha1.Absorb.{
  absorb_all, absorb_all-append, length-absorb_all, absorb_all-filled,
}
use io_edge_hub_freertos.Web.Sha1.Absorb.{with_total, absorb_all-with_total, sha1_update-absorb_all}

-- The zeros after a text of `n` bytes and its 0x80.
abbrev pub zeros : ℕ → ℕ
zeros n = (119 - n % 64) % 64

-- The text with its padding: 0x80, zeros up to 56 bytes of a block, and its length in bits.
abbrev pub padded : List ℕ → List ℕ
padded text = text ++ ((0x80 ∷ replicate (zeros (length text)) 0) ++ be64 (8 * length text))

-- The chain of `n` blocks of 64 bytes.
unfoldable pub hash_blocks : ℕ → Words → List ℕ → Words
hash_blocks zero h text = h
hash_blocks (suc n) h text = hash_blocks n (sha1_block h (take 64 text)) (drop 64 text)

length-padded :
    (text : List ℕ) → length (padded text) ≡ 64 * ((length text + 9 + zeros (length text)) / 64)
unfolding be64
length-padded text = omega (
  arith,
  length-append text ((0x80 ∷ replicate (zeros (length text)) 0) ++ be64 (8 * length text)),
  length-append (0x80 ∷ replicate (zeros (length text)) 0) (be64 (8 * length text)),
  length-replicate {A = ℕ} (zeros (length text)) 0,
)

absorb_all_block :
    (h : Words) (t : ℕ) (p : List ℕ)
    → length p ≡ 64
    → absorb_all (record { h = h; total = t; buf = [] }) p
      ≡ record { h = sha1_block h p; total = t; buf = [] }
absorb_all_block h t [] full = absurd (omega arith)
absorb_all_block h t (x ∷ xs) full =
    let whole : (length (x ∷ xs) == 64) ≡ true = ground (arith, full) in
    absorb_all-filled (record { h = h; total = t; buf = [] }) x xs (omega arith) ∙ (rw whole refl)

absorb_all-hash_blocks :
    (n : ℕ) (h : Words) (t : ℕ) (p : List ℕ)
    → length p ≡ 64 * n
    → (absorb_all (record { h = h; total = t; buf = [] }) p).h ≡ hash_blocks n h p
unfolding hash_blocks absorb_all
absorb_all-hash_blocks zero h t [] full = refl
absorb_all-hash_blocks zero h t (x ∷ xs) full = absurd (omega arith)
absorb_all-hash_blocks (suc n) h t p full =
    let start : Context = record { h = h; total = t; buf = [] } in
    ap (λ u. (absorb_all start u).h) (sym (take-drop 64 p))
    ∙ (ap (λ u. u.h) (absorb_all-append start (take 64 p) (drop 64 p))
        ∙ (ap (λ u. (absorb_all u (drop 64 p)).h)
              (absorb_all_block h t (take 64 p) (omega (arith, length-take 64 p)))
            ∙ absorb_all-hash_blocks n (sha1_block h (take 64 p)) t (drop 64 p)
                (omega (arith, length-drop 64 p))))

-- The padding loop adds the zeros that bring the buffer to 56 bytes.
pad_loop-zeros :
    (k fuel : ℕ) (c : Context)
    → k < fuel
    → k < 64
    → length c.buf < 64
    → (length c.buf + k) % 64 ≡ 56
    → c.total < 2 ^ 64
    → pad_loop fuel c ≡ with_total (absorb_all c (replicate k 0)) ((c.total + k) % 2 ^ 64)
unfolding pad_loop absorb_all
pad_loop-zeros k zero c enough small room needed fits = absurd (omega arith)
pad_loop-zeros zero (suc fuel) c enough small room needed fits =
    let stop : (length c.buf == 56) ≡ true = ground arith in
    let total : c.total ≡ (c.total + 0) % 2 ^ 64 = omega arith in
    rw (stop, pad_loop) (ap (with_total c) total)
pad_loop-zeros (suc k) (suc fuel) c enough small room needed fits =
    let more : (length c.buf == 56) ≡ false = ground arith in
    let t1 = (c.total + 1) % 2 ^ 64 in
    let one : Context = with_total (absorb_all c (0 ∷ [])) t1 in
    let grown : length (absorb_all c (0 ∷ [])).buf ≡ (length c.buf + 1) % 64 =
      length-absorb_all c (0 ∷ []) room in
    rw (more, pad_loop)
      (ap (pad_loop fuel) (sha1_update-absorb_all c (0 ∷ []) room)
        ∙ (pad_loop-zeros k fuel one (omega arith) (omega arith) (omega (arith, grown))
              (omega (arith, grown)) (omega arith)
            ∙ (ap (λ t. with_total t ((t1 + k) % 2 ^ 64))
                  (absorb_all-with_total (absorb_all c (0 ∷ [])) t1 (replicate k 0))
                ∙ ap (with_total (absorb_all c (replicate (suc k) 0))) (omega arith))))

-- The padding loop of sha1_final ends, from any context whose buffer is not full: with 64 rounds or
-- more it stops at a buffer of 56 bytes, and the number of rounds allowed makes no difference.
pub pad_loop_ends :
    (fuel : ℕ) (c : Context)
    → 64 ≤ fuel
    → length c.buf < 64
    → c.total < 2 ^ 64
    → (length (pad_loop fuel c).buf ≡ 56) × (pad_loop fuel c ≡ pad_loop 64 c)
pad_loop_ends fuel c enough room fits =
    let k = (120 - length c.buf) % 64 in
    let many = pad_loop-zeros k fuel c (omega arith) (omega arith) room (omega arith) fits in
    let least = pad_loop-zeros k 64 c (omega arith) (omega arith) room (omega arith) fits in
    (
      ap (λ t. length t.buf) many
          ∙ omega (arith, length-absorb_all c (replicate k 0) room, length-replicate {A = ℕ} k 0),
      many ∙ sym least,
    )

-- The padding and the length go through the context that the text left.
padded_context :
    (c : Context) (k : ℕ) (tail : List ℕ)
    → length c.buf < 64
    → k < 64
    → (length c.buf + 1 + k) % 64 ≡ 56
    → sha1_update (pad_loop 64 (sha1_update c (0x80 ∷ []))) tail
      ≡ with_total
          (absorb_all c ((0x80 ∷ replicate k 0) ++ tail))
          (((((c.total + 1) % 2 ^ 64 + k) % 2 ^ 64) + length tail) % 2 ^ 64)
unfolding absorb_all
padded_context c k tail room small needed =
    let t1 = (c.total + 1) % 2 ^ 64 in
    let one : Context = with_total (absorb_all c (0x80 ∷ [])) t1 in
    let t2 = (t1 + k) % 2 ^ 64 in
    let grown : length one.buf ≡ (length c.buf + 1) % 64 = length-absorb_all c (0x80 ∷ []) room in
    let zeroed : length (absorb_all one (replicate k 0)).buf < 64 =
      omega (arith, length-absorb_all one (replicate k 0) (omega (arith, grown))) in
    let t3 = (t2 + length tail) % 2 ^ 64 in
    ap (λ t. sha1_update (pad_loop 64 t) tail) (sha1_update-absorb_all c (0x80 ∷ []) room)
    ∙ (ap (λ t. sha1_update t tail)
          (pad_loop-zeros k 64 one small small (omega (arith, grown)) (omega (arith, grown))
            (omega arith))
        ∙ (sha1_update-absorb_all (with_total (absorb_all one (replicate k 0)) t2) tail zeroed
            ∙ (ap (λ t. with_total t t3)
                  (absorb_all-with_total (absorb_all one (replicate k 0)) t2 tail)
                ∙ (ap (λ t. with_total t t3) (sym (absorb_all-append one (replicate k 0) tail))
                    ∙ ap (λ t. with_total t t3)
                        (absorb_all-with_total (absorb_all c (0x80 ∷ [])) t1
                          (replicate k 0 ++ tail))))))

sha1_final-lem :
    (c : Context)
    → sha1_final c
      ≡ output
          (sha1_update (pad_loop 64 (sha1_update c (0x80 ∷ []))) (be64 ((c.total << 3) % 2 ^ 64))).h
unfolding sha1_final
sha1_final-lem c = refl

abbrev pub start : Context
start = record { h = initial; total = 0; buf = [] }

sha1_update_first :
    (text : List ℕ)
    → sha1_update sha1_init text ≡ with_total (absorb_all start text) ((0 + length text) % 2 ^ 64)
unfolding sha1_init
sha1_update_first text = sha1_update-absorb_all start text (omega arith)

-- The digest of a text shorter than 2^61 bytes, fed in one piece, is the one of the standard: the
-- text padded with 0x80, zeros and its length in bits is a whole number of blocks of 64 bytes, and
-- the output is that of their chain from the initial words.
pub sha1-hash_blocks :
    (text : List ℕ)
    → length text < 2 ^ 61
    → (length (padded text) ≡ 64 * (length (padded text) / 64))
      × (sha1 text ≡ output (hash_blocks (length (padded text) / 64) initial (padded text)))
sha1-hash_blocks text short =
    let n = length text in
    let k = zeros n in
    let whole : length (padded text) ≡ 64 * (length (padded text) / 64) =
      omega (arith, length-padded text) in
    let c : Context = with_total (absorb_all start text) ((0 + n) % 2 ^ 64) in
    let held : length c.buf ≡ n % 64 = omega (arith, length-absorb_all start text (omega arith)) in
    let bits : (c.total << 3) % 2 ^ 64 ≡ 8 * n = omega arith in
    let tail = (0x80 ∷ replicate k 0) ++ be64 (8 * n) in
    (
      whole,
      ap sha1_final (sha1_update_first text)
          ∙ (sha1_final-lem c
              ∙ (ap (λ b. output (sha1_update (pad_loop 64 (sha1_update c (0x80 ∷ []))) (be64 b)).h)
                    bits
                  ∙ (ap (λ t. output t.h)
                        (padded_context c k (be64 (8 * n)) (omega (arith, held)) (omega arith)
                          (omega (arith, held)))
                      ∙ (ap (λ t. output t.h)
                            (absorb_all-with_total (absorb_all start text) ((0 + n) % 2 ^ 64) tail)
                          ∙ (ap (λ t. output t.h) (sym (absorb_all-append start text tail))
                              ∙ ap output (
                                  absorb_all-hash_blocks (length (padded text) / 64) initial 0
                                    (padded text) whole)))))),
    )
