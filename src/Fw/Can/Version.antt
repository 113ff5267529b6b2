-- ===== src/Fw/Can/Version.antt =====
-- What a receiver makes of the frames of a version string.
use mathlib.Core.Path.{subst}
use io_edge_hub_freertos.Common.{
  ℕ, zero, suc, ◌+◌, ◌-◌, ◌<◌, ◌≤◌, ◌≡◌, refl, sym, ap, ap₂, ◌∙◌, arith, inl, inr,
}
use io_edge_hub_freertos.Common.{
  List, [], ◌∷◌, ◌++◌, length, take, drop, replicate, byte_at, take_all, take-drop, append_assoc,
  append-nil,
}
use io_edge_hub_freertos.Common.{length-append, length-take, length-drop, length-replicate, u8, ltb}
use io_edge_hub_freertos.Common.{
  if◌then◌else◌, Bool-cases, elim_true, elim_false, lt→ltb, le→ltb, ltb→lt, ltb→le,
}
use io_edge_hub_freertos.Fw.Can.{version_loop, fw_send_version_string}

-- The text of the frames: what follows their first bytes.
abbrev pub payload : List (List ℕ) → List ℕ
payload [] = []
payload (d ∷ ds) = drop 1 d ++ payload ds

-- Frames of 8 bytes with the numbers from `seq` on.
abbrev pub Numbered : ℕ → List (List ℕ) → Type 0
Numbered seq [] = Unit {0}
Numbered seq (d ∷ ds) = (byte_at d 0 ≡ seq) × (length d ≡ 8) × Numbered (seq + 1) ds

drop_nil : (n : ℕ) → Path (List ℕ) (drop n []) []
drop_nil zero = refl
drop_nil (suc n) = refl

drop_all : (n : ℕ) (xs : List ℕ) → length xs ≤ n → drop n xs ≡ []
drop_all zero [] h = refl
drop_all zero (x ∷ xs) h = absurd (omega arith)
drop_all (suc n) [] h = refl
drop_all (suc n) (x ∷ xs) h = drop_all n xs (omega arith)

drop-drop : (n m : ℕ) (xs : List ℕ) → drop n (drop m xs) ≡ drop (m + n) xs
drop-drop n zero xs = ap (λ k. drop k xs) {x = n} {y = 0 + n} (omega arith)
drop-drop n (suc m) [] = drop_nil n ∙ sym (drop_nil (suc m + n))
drop-drop n (suc m) (x ∷ xs) =
    drop-drop n m xs ∙ ap (λ k. drop k (x ∷ xs)) {x = suc (m + n)} {y = suc m + n} (omega arith)

take_past :
    (xs ys : List ℕ) (n : ℕ) → length xs ≤ n → take n (xs ++ ys) ≡ xs ++ take (n - length xs) ys
take_past [] ys n h = ap (λ k. take k ys) {x = n} {y = n - 0} (omega arith)
take_past (x ∷ xs) ys zero h = absurd (omega arith)
take_past (x ∷ xs) ys (suc n) h =
    ap (λ t. x ∷ t)
      (take_past xs ys n (omega arith)
        ∙ ap (λ k. xs ++ take k ys) {x = n - length xs} {y = suc n - suc (length xs)} (omega arith))

module _ (ver : List ℕ) where
  abbrev chunk : ℕ → ℕ
  chunk off = if ltb 7 (length ver - off) then 7 else length ver - off

  abbrev text : ℕ → List ℕ
  text off = take (chunk off) (drop off ver)

  version_loop_next :
      (fuel off seq : ℕ)
      → length ver ≤ 248
      → off < length ver
      → seq < 255
      → version_loop (suc fuel) ver (length ver) off seq
        ≡ (seq ∷ (text off ++ replicate (7 - chunk off) 0))
          ∷ version_loop fuel ver (length ver) (off + 7) (seq + 1)
  unfolding version_loop
  version_loop_next fuel off seq short more few =
      let e1 : u8 (length ver - off) ≡ length ver - off = omega arith in
      let e2 : u8 (off + 7) ≡ off + 7 = omega arith in
      let e3 : u8 (seq + 1) ≡ seq + 1 = omega arith in
      elim_true (ltb off (length ver)) _ [] (lt→ltb _ _ more)
      ∙ ap
          (λ l.
            (seq
              ∷ (take (if ltb 7 l then 7 else l) (drop off ver)
                  ++ replicate (7 - (if ltb 7 l then 7 else l)) 0))
            ∷ version_loop fuel ver (length ver) (u8 (off + 7)) (u8 (seq + 1)))
          e1
      ∙ ap₂
          (λ o s.
            (seq ∷ (text off ++ replicate (7 - chunk off) 0))
            ∷ version_loop fuel ver (length ver) o s)
          e2 e3

  -- The bytes that count, of a frame and of what comes after it.
  first_frame :
      (off : ℕ) (rest : List ℕ)
      → off < length ver
      → take (length ver - (off + 7)) rest ≡ drop (off + 7) ver
      → take (length ver - off) ((text off ++ replicate (7 - chunk off) 0) ++ rest) ≡ drop off ver
  first_frame off rest more ih =
      let zeros : List ℕ = replicate (7 - chunk off) 0 in
      let size : length (text off) ≡ chunk off =
        ground (arith, length-take (chunk off) (drop off ver), length-drop off ver) in
      ap (take (length ver - off)) (append_assoc (text off) zeros rest)
      ∙ take_past (text off) (zeros ++ rest) (length ver - off) (ground (arith, size))
      ∙ elim (Bool-cases (ltb (length ver - off) 7)) [
        | inl last ↦
            let full : chunk off ≡ length ver - off = ground arith in
            ap₂ ◌++◌
              (ap (λ n. take n (drop off ver)) full
                ∙ take_all (drop off ver) (length ver - off) (omega (arith, length-drop off ver)))
              (ap (λ n. take n (zeros ++ rest)) {x = length ver - off - length (text off)} {y = 0}
                (omega (arith, size, full)))
            ∙ append-nil (drop off ver)
        | inr inner ↦
            let seven : chunk off ≡ 7 = ground arith in
            ap₂ ◌++◌ (ap (λ n. take n (drop off ver)) seven) (
              ap₂ take {x = length ver - off - length (text off)} {y = length ver - (off + 7)}
                (omega (arith, size, seven)) (ap (λ n. replicate (7 - n) 0 ++ rest) seven)
              ∙ ih
              ∙ sym (drop-drop 7 off ver))
            ∙ take-drop 7 (drop off ver)
      ]

  no_frame :
      (fuel off seq : ℕ) → length ver ≤ off → version_loop (suc fuel) ver (length ver) off seq ≡ []
  unfolding version_loop
  no_frame fuel off seq past = elim_false (ltb off (length ver)) _ [] (le→ltb _ _ past)

  frame_length :
      (off : ℕ) → off < length ver → suc (length (text off ++ replicate (7 - chunk off) 0)) ≡ 8
  frame_length off more = ground (
    arith,
    length-append (text off) (replicate (7 - chunk off) 0),
    length-take (chunk off) (drop off ver),
    length-drop off ver,
    length-replicate {A = ℕ} (7 - chunk off) 0,
  )

  version_loop-payload :
      (fuel off seq : ℕ)
      → length ver ≤ 248
      → length ver - off < fuel
      → seq + (length ver - off) < 255
      → (take (length ver - off) (payload (version_loop fuel ver (length ver) off seq))
          ≡ drop off ver)
        × Numbered seq (version_loop fuel ver (length ver) off seq)
  version_loop-payload zero off seq short f few = absurd (omega arith)
  version_loop-payload (suc fuel) off seq short f few = elim (Bool-cases (ltb off (length ver))) [
    | inr done ↦
        let past : length ver ≤ off = ltb→le off (length ver) done in
        subst
          (λ (fs : List (List ℕ)).
            (take (length ver - off) (payload fs) ≡ drop off ver) × Numbered seq fs)
          (sym (no_frame fuel off seq past))
          (
            ap (λ n. take n []) {x = length ver - off} {y = 0} (omega arith)
                ∙ sym (drop_all off ver past),
            tt,
          )
    | inl some_left ↦
        let more : off < length ver = ltb→lt off (length ver) some_left in
        let (ih, numbered) =
          version_loop-payload fuel (off + 7) (seq + 1) short (omega arith) (omega arith) in
        subst
          (λ (fs : List (List ℕ)).
            (take (length ver - off) (payload fs) ≡ drop off ver) × Numbered seq fs)
          (sym (version_loop_next fuel off seq short more (omega arith)))
          (
            first_frame off (payload (version_loop fuel ver (length ver) (off + 7) (seq + 1))) more
                ih,
            (refl, frame_length off more, numbered),
          )
  ]

-- A version string of at most 248 characters: its frames have 8 bytes and are numbered from 0 on,
-- and the first characters of what they carry are the string.
pub fw_send_version_string-payload :
    (ver : List ℕ)
    → length ver ≤ 248
    → (take (length ver) (payload (fw_send_version_string ver (length ver))) ≡ ver)
      × Numbered 0 (fw_send_version_string ver (length ver))
unfolding fw_send_version_string
fw_send_version_string-payload ver short =
    let (text, numbered) =
      version_loop-payload ver (suc (length ver)) 0 0 short (omega arith) (omega arith) in
    (
      ap (λ n. take n (payload (version_loop (suc (length ver)) ver (length ver) 0 0)))
            {x = length ver} {y = length ver - 0} (omega arith)
          ∙ text,
      numbered,
    )
