-- ===== src/Modbus/Rtu/Collect.antt =====
-- The serial line: how the bytes of a frame are collected.
use io_edge_hub_freertos.Common.{ℕ, zero, suc, ◌+◌, ◌-◌, ◌≤◌, ◌≡◌, refl, ap, ◌∙◌, arith}
use io_edge_hub_freertos.Common.{Bool, true, false, List, [], ◌∷◌, ◌++◌}
use io_edge_hub_freertos.Common.{length, length-append, take, take_all}
use io_edge_hub_freertos.Common.{ltb}
use io_edge_hub_freertos.Common.{
  Bool-cases, inl, inr, ◌⊎◌, length-take, sym, ltb→le, ltb→lt, append-nil, append_assoc,
}
use io_edge_hub_freertos.Modbus.Rtu.{Rtu, frame_max, append}

take-++ : (xs ys : List ℕ) (n : ℕ) → take n (xs ++ ys) ≡ take n xs ++ take (n - length xs) ys
take-++ [] ys zero = refl
take-++ [] ys (suc n) = let e : suc n - 0 ≡ suc n = omega arith in rw e refl
take-++ (x ∷ xs) ys zero = let e : 0 - suc (length xs) ≡ 0 = omega arith in rw e refl
take-++ (x ∷ xs) ys (suc n) =
    let e : suc n - suc (length xs) ≡ n - length xs = omega arith in
    rw e (ap (λ t. x ∷ t) (take-++ xs ys n))

-- The bytes as the buffer takes them, before it has overflown.
abbrev room : Rtu → ℕ
room u = frame_max - length u.rx

abbrev collected : Rtu → List ℕ → Rtu
collected u xs = record u { rx = u.rx ++ take (room u) xs; rx_overflow = ltb (room u) (length xs) }

append-collected : (u : Rtu) (xs : List ℕ) → u.rx_overflow ≡ false → append u xs ≡ collected u xs
unfolding append
append-collected u xs e = elim (Bool-cases (ltb (room u) (length xs))) [
  | inl over ↦ ground arith
  | inr fits ↦
      ground (arith, take_all xs (length xs) (omega arith), take_all xs (room u) (ltb→le _ _ fits))
]

same_buffer :
    (u : Rtu) {a b : List ℕ} {o o' : Bool}
    → a ≡ b
    → o ≡ o'
    → (record u { rx = a; rx_overflow = o }) ≡ (record u { rx = b; rx_overflow = o' })
same_buffer u p q = λ i. record u { rx = p i; rx_overflow = q i }

append_full : (u : Rtu) (xs : List ℕ) → u.rx_overflow ≡ true → append u xs ≡ u
unfolding append
append_full u xs e = rw e refl

-- The bytes that the line delivers end in the buffer the same, however they were cut into pieces,
-- also where they run past its 256 bytes.
append-append : (u : Rtu) (xs ys : List ℕ) → append (append u xs) ys ≡ append u (xs ++ ys)
append-append u xs ys = elim (Bool-cases u.rx_overflow) [
  | inl full ↦
      ap (λ v. append v ys) (append_full u xs full)
      ∙ append_full u ys full
      ∙ sym (append_full u (xs ++ ys) full)
  | inr e ↦
      ap (λ v. append v ys) (append-collected u xs e)
      ∙ rest e
      ∙ sym (append-collected u (xs ++ ys) e)
]
  where
    taken : take (room u) (xs ++ ys) ≡ take (room u) xs ++ take (room u - length xs) ys
    taken = take-++ xs ys (room u)

    size : length (xs ++ ys) ≡ length xs + length ys
    size = length-append xs ys

    none_left :
        ltb (room u) (length xs) ≡ true
        → take (room u) xs ++ take (room u - length xs) ys ≡ take (room u) xs
    none_left over =
        let e : room u - length xs ≡ 0 = omega (arith, ltb→lt _ _ over) in
        rw e (append-nil (take (room u) xs))

    buffer :
        ltb (room u) (length xs) ≡ false
        → length (u.rx ++ take (room u) xs) ≡ length u.rx + length xs
    buffer fits =
        length-append u.rx (take (room u) xs)
        ∙ ap (λ t. length u.rx + length t) (take_all xs (room u) (ltb→le _ _ fits))

    second :
        ltb (room u) (length xs) ≡ false
        → take (room u) xs ++ take (frame_max - length (u.rx ++ take (room u) xs)) ys
          ≡ take (room u) xs ++ take (room u - length xs) ys
    second fits =
        let e : frame_max - length (u.rx ++ take (room u) xs) ≡ room u - length xs =
          omega (arith, buffer fits) in
        ap (λ k. take (room u) xs ++ take k ys) e

    rest : u.rx_overflow ≡ false → append (collected u xs) ys ≡ collected u (xs ++ ys)
    rest e = elim (Bool-cases (ltb (room u) (length xs))) [
      | inl over ↦
          append_full (collected u xs) ys over
          ∙ same_buffer u (ap (λ t. u.rx ++ t) (sym (taken ∙ none_left over)))
              (ground (arith, size))
      | inr fits ↦
          append-collected (collected u xs) ys fits
          ∙ same_buffer u
              (append_assoc u.rx (take (room u) xs) _
                ∙ ap (λ t. u.rx ++ t) (second fits ∙ sym taken))
              (ground (arith, size, buffer fits))
    ]

-- A buffer of at most 256 bytes stays so, and bytes are dropped only with the overflow noted:
-- without it, all that came is there.
append_fits :
    (u : Rtu) (xs : List ℕ)
    → length u.rx ≤ frame_max
    → (length (append u xs).rx ≤ frame_max)
      × ((append u xs).rx_overflow ≡ true ⊎ (append u xs).rx ≡ u.rx ++ xs)
append_fits u xs h = elim (Bool-cases u.rx_overflow) [
  | inl full ↦ rw (append_full u xs full) (h, inl full)
  | inr e ↦ rw (append-collected u xs e) (
    omega (arith, length-append u.rx (take (room u) xs), length-take (room u) xs),
    elim (Bool-cases (ltb (room u) (length xs))) [
      | inl over ↦ inl over
      | inr fits ↦ inr (ap (λ t. u.rx ++ t) (take_all xs (room u) (ltb→le _ _ fits)))
    ],
  )
]
