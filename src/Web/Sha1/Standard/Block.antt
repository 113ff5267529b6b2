-- ===== src/Web/Sha1/Standard/Block.antt =====
-- The code's computation of a block is that of RFC 3174.
use io_edge_hub_freertos.Common.{
  ℕ, zero, suc, ◌+◌, ◌-◌, ◌≤◌, ◌<◌, ◌≡◌, refl, sym, ap, ◌∙◌, arith, false, inl, inr, Bool-cases,
  ltb→lt, ltb→le,
}
use io_edge_hub_freertos.Common.{
  List, [], ◌∷◌, ◌++◌, length, length-append, get_or, bit_xor, u32, ltb, if_true,
}
use io_edge_hub_freertos.Web.Sha1.{
  Words, sha_rol, block_word, words_loop, expand_loop, mix, round_key, round, rounds_loop,
  sha1_block,
}
use io_edge_hub_freertos.Web.Sha1.Standard.{
  circular_shift, logical, constant_word, word_of, schedule, step, steps, process_block,
}

word_of-fuel : (f g : ℕ) (p : List ℕ) (t : ℕ) → t < f → t < g → word_of f p t ≡ word_of g p t
unfolding word_of
word_of-fuel zero g p t h k = absurd (omega arith)
word_of-fuel (suc f) zero p t h k = absurd (omega arith)
word_of-fuel (suc f) (suc g) p t h k = elim (Bool-cases (ltb t 16)) [
  | inl early ↦ rw early refl
  | inr late ↦
      let far : 16 ≤ t = ltb→le t 16 late in
      rw
        (
          late,
          word_of-fuel f g p (t - 3) (omega arith) (omega arith),
          word_of-fuel f g p (t - 8) (omega arith) (omega arith),
          word_of-fuel f g p (t - 14) (omega arith) (omega arith),
          word_of-fuel f g p (t - 16) (omega arith) (omega arith),
        )
        refl
]

swap_last : (x k w : ℕ) → x + k + w ≡ x + w + k
swap_last x k w = omega arith

round-step : (t w : ℕ) (s : Words) → round t w s ≡ step t w s
unfolding round step mix round_key sha_rol circular_shift logical constant_word
round-step t w s =
    ap (λ v. record { a = u32 v; b = s.a; c = circular_shift 30 s.b; d = s.c; e = s.d })
      (swap_last (circular_shift 5 s.a + logical t s.b s.c s.d + s.e) (constant_word t) w)

rounds_loop-steps :
    (ws : List ℕ) (t : ℕ) (w : ℕ → ℕ) (s : Words)
    → ((j : ℕ) → j < length ws → get_or ws j 0 ≡ w (t + j))
    → rounds_loop t ws s ≡ steps (length ws) t w s
unfolding rounds_loop steps
rounds_loop-steps [] t w s h = refl
rounds_loop-steps (x ∷ xs) t w s h =
    let first : x ≡ w t = h 0 (omega arith) ∙ ap w {x = t + 0} {y = t} (omega arith) in
    rounds_loop-steps xs (t + 1) w (round t x s)
      (λ j low. h (suc j) (omega arith) ∙ ap w {x = t + suc j} {y = t + 1 + j} (omega arith))
    ∙ ap (steps (length xs) (t + 1) w) (round-step t x s ∙ ap (λ v. step t v s) first)

get_or-append_left :
    (xs ys : List ℕ) (j : ℕ) → j < length xs → get_or (xs ++ ys) j 0 ≡ get_or xs j 0
get_or-append_left [] ys j h = absurd (omega arith)
get_or-append_left (x ∷ xs) ys zero h = refl
get_or-append_left (x ∷ xs) ys (suc j) h = get_or-append_left xs ys j (omega arith)

get_or-append_end : (xs : List ℕ) (y j : ℕ) → j ≡ length xs → get_or (xs ++ (y ∷ [])) j 0 ≡ y
get_or-append_end [] y j h = ap (λ k. get_or (y ∷ []) k 0) h
get_or-append_end (x ∷ xs) y zero h = absurd (omega arith)
get_or-append_end (x ∷ xs) y (suc j) h = get_or-append_end xs y j (omega arith)

-- The words so far are those of the schedule.
record SoFar (p : List ℕ) (i : ℕ) (ws : List ℕ) : Type 0 where
  count : length ws ≡ i
  words : (j : ℕ) → j < i → get_or ws j 0 ≡ schedule p j

words_loop_at :
    (n i : ℕ) (p : List ℕ) (j : ℕ) → j < n → get_or (words_loop n i p) j 0 ≡ block_word p (i + j)
unfolding words_loop
words_loop_at zero i p j h = absurd (omega arith)
words_loop_at (suc n) i p zero h = ap (block_word p) {x = i} {y = i + 0} (omega arith)
words_loop_at (suc n) i p (suc j) h =
    words_loop_at n (i + 1) p j (omega arith)
    ∙ ap (block_word p) {x = i + 1 + j} {y = i + suc j} (omega arith)

length-words_loop : (n i : ℕ) (p : List ℕ) → length (words_loop n i p) ≡ n
unfolding words_loop
length-words_loop zero i p = refl
length-words_loop (suc n) i p = ap suc (length-words_loop n (i + 1) p)

early_word : (p : List ℕ) (t : ℕ) → t < 16 → schedule p t ≡ block_word p t
unfolding word_of block_word
early_word p t h = if_true (ltb t 16) _ _ (ground arith)

late_word :
    (p ws : List ℕ) (t : ℕ)
    → 16 ≤ t
    → ((j : ℕ) → j < t → get_or ws j 0 ≡ schedule p j)
    → sha_rol
        (bit_xor
          (bit_xor (bit_xor (get_or ws (t - 3) 0) (get_or ws (t - 8) 0)) (get_or ws (t - 14) 0))
          (get_or ws (t - 16) 0))
        1
      ≡ schedule p t
unfolding word_of sha_rol circular_shift
late_word p ws t far h =
    let late : ltb t 16 ≡ false = ground arith in
    let back : (k : ℕ) → 0 < k → k ≤ 16 → get_or ws (t - k) 0 ≡ word_of t p (t - k) = λ k pos most.
      h (t - k) (omega arith)
      ∙ word_of-fuel (suc (t - k)) t p (t - k) (omega arith) (omega arith) in
    rw
      (
        late,
        back 3 (omega arith) (omega arith),
        back 8 (omega arith) (omega arith),
        back 14 (omega arith) (omega arith),
        back 16 (omega arith) (omega arith),
      )
      refl

expand_loop-SoFar :
    (left i : ℕ) (p ws : List ℕ)
    → 16 ≤ i
    → SoFar p i ws
    → SoFar p (left + i) (expand_loop left i ws)
unfolding expand_loop
expand_loop-SoFar zero i p ws far h = record {
  count = h.count ∙ omega arith;
  words = λ j low. h.words j (omega arith);
}
expand_loop-SoFar (suc left) i p ws far h =
    let x =
      sha_rol
        (bit_xor
          (bit_xor (bit_xor (get_or ws (i - 3) 0) (get_or ws (i - 8) 0)) (get_or ws (i - 14) 0))
          (get_or ws (i - 16) 0))
        1 in
    let next : SoFar p (i + 1) (ws ++ (x ∷ [])) = record {
      count = omega (arith, length-append ws (x ∷ []), h.count);
      words = λ j low. elim (Bool-cases (ltb j i)) [
        | inl old ↦
            get_or-append_left ws (x ∷ []) j (omega (arith, h.count, ltb→lt j i old))
            ∙ h.words j (ltb→lt j i old)
        | inr new ↦
            let here : j ≡ i = omega (arith, ltb→le j i new) in
            get_or-append_end ws x j (omega (arith, h.count, here))
            ∙ late_word p ws i far h.words
            ∙ ap (schedule p) (sym here)
      ];
    } in
    let r = expand_loop-SoFar left (i + 1) p (ws ++ (x ∷ [])) (omega arith) next in
    record { count = r.count ∙ omega arith; words = λ j low. r.words j (omega arith) }

pub sha1_block-process_block : (h : Words) (p : List ℕ) → sha1_block h p ≡ process_block h p
unfolding sha1_block process_block
sha1_block-process_block h p =
    let start : SoFar p 16 (words_loop 16 0 p) = record {
      count = length-words_loop 16 0 p;
      words = λ j low.
          words_loop_at 16 0 p j low
          ∙ ap (block_word p) {x = 0 + j} {y = j} (omega arith)
          ∙ sym (early_word p j low);
    } in
    let all = expand_loop-SoFar 64 16 p (words_loop 16 0 p) (omega arith) start in
    let ws = expand_loop 64 16 (words_loop 16 0 p) in
    let same : rounds_loop 0 ws h ≡ steps 80 0 (schedule p) h =
      rounds_loop-steps ws 0 (schedule p) h (λ j low.
        all.words j (omega (arith, all.count)) ∙ ap (schedule p) {x = j} {y = 0 + j} (omega arith))
      ∙ ap (λ n. steps n 0 (schedule p) h) all.count in
    ap
      (λ (s : Words). record {
        a = u32 (h.a + s.a);
        b = u32 (h.b + s.b);
        c = u32 (h.c + s.c);
        d = u32 (h.d + s.d);
        e = u32 (h.e + s.e);
      })
      same
