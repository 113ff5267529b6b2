-- ===== src/Storage/IntFlash/Loops.antt =====
-- The loops over the sectors and over the bytes.
use io_edge_hub_freertos.Common.{
  ℕ, zero, suc, ◌+◌, ◌-◌, ◌*◌, ◌%◌, ◌^◌, ◌<◌, ◌≤◌, ◌≡◌, sym, ap, ◌∙◌, arith, Bool, true, false,
}
use io_edge_hub_freertos.Common.{◌&&◌, ◌||◌, ◌⊎◌, inl, inr, List, [], ◌∷◌, length, drop, byte_at}
use io_edge_hub_freertos.Common.{
  u8, u32, ◌>>◌, AllBelow, AllBelow-drop, length-drop, byte_at-drop, ltb, leb, ◌==◌, if◌then◌else◌,
  Bool-cases, ltb→le, if_true, if_false,
}
use mathlib.Core.Path.{subst}
use io_edge_hub_freertos.Util.Bytes.{get_le32, bytes32}
use io_edge_hub_freertos.Config.Flash.{Outside}
use io_edge_hub_freertos.Storage.IntFlash.{
  Hal, Sector, failed_locked, erase_loop, program_next, write_loop, AllSectors, IsIntFlash,
}

-- The address is in a sector of the list.
abbrev pub InSome : ℕ → List Sector → Type 0
InSome i [] = ⊥
InSome i (x ∷ xs) = ((x.addr ≤ i) × (i < x.addr + x.size)) ⊎ InSome i xs

-- Each sector of the list ends by `a`, or begins after `i`.
abbrev pub AllClear : ℕ → ℕ → List Sector → Type 0
AllClear a i [] = Unit {0}
AllClear a i (x ∷ xs) = ((x.addr + x.size ≤ a) ⊎ (i < x.addr)) × AllClear a i xs

byte_of_word :
    (b0 b1 b2 b3 : ℕ) (bs : List ℕ) (k : ℕ)
    → AllBelow 256 (b0 ∷ b1 ∷ b2 ∷ b3 ∷ bs)
    → k < 4
    → u8 (get_le32 (b0 ∷ b1 ∷ b2 ∷ b3 ∷ bs) 0 >> (8 * k)) ≡ byte_at (b0 ∷ b1 ∷ b2 ∷ b3 ∷ bs) k
unfolding get_le32
byte_of_word b0 b1 b2 b3 bs zero (p, (q, (r, (s, _)))) h =
    omega (arith, bytes32 b3 b2 b1 b0 s r q p)
byte_of_word b0 b1 b2 b3 bs (suc zero) (p, (q, (r, (s, _)))) h =
    omega (arith, bytes32 b3 b2 b1 b0 s r q p)
byte_of_word b0 b1 b2 b3 bs (suc (suc zero)) (p, (q, (r, (s, _)))) h =
    omega (arith, bytes32 b3 b2 b1 b0 s r q p)
byte_of_word b0 b1 b2 b3 bs (suc (suc (suc zero))) (p, (q, (r, (s, _)))) h =
    omega (arith, bytes32 b3 b2 b1 b0 s r q p)
byte_of_word b0 b1 b2 b3 bs (suc (suc (suc (suc k)))) p h = absurd (omega arith)

byte_of_bytes :
    (bs : List ℕ) (k : ℕ)
    → AllBelow 256 bs
    → 4 ≤ length bs
    → k < 4
    → u8 (get_le32 bs 0 >> (8 * k)) ≡ byte_at bs k
byte_of_bytes (b0 ∷ b1 ∷ b2 ∷ b3 ∷ bs) k small h p = byte_of_word b0 b1 b2 b3 bs k small p
byte_of_bytes (b0 ∷ b1 ∷ b2 ∷ []) k small h p = absurd (omega arith)
byte_of_bytes (b0 ∷ b1 ∷ []) k small h p = absurd (omega arith)
byte_of_bytes (b0 ∷ []) k small h p = absurd (omega arith)
byte_of_bytes [] k small h p = absurd (omega arith)

outside :
    (x : Sector) (i : ℕ)
    → (leb x.addr i && ltb i (x.addr + x.size)) ≡ false
    → Outside x.addr x.size i
outside x i out = elim (Bool-cases (ltb i x.addr)) [
  | inl low ↦ inl (ground arith)
  | inr high ↦ inr (ground arith)
]

-- A sector that is erased does not end by `a`.
left_out :
    (x : Sector) (a e i : ℕ)
    → (leb (x.addr + x.size) a || leb e x.addr) ≡ false
    → (x.addr + x.size ≤ a) ⊎ (i < x.addr)
    → Outside x.addr x.size i
left_out x a e i t (inl ends) = absurd (ground arith)
left_out x a e i t (inr begins) = inl begins

part_out : (a n m i : ℕ) → n ≤ m → Outside a m i → Outside a n i
part_out a n m i h (inl p) = inl p
part_out a n m i h (inr p) = inr (omega arith)

module _ {H : Type 0} (hal : Hal H) (cell : H → ℕ → ℕ) where
  -- What the loop does at a sector: it is passed over, erased, or it stops the loop.
  loop_cases :
      (x : Sector) (xs : List Sector) (h : H) (a e : ℕ)
      → (((leb (x.addr + x.size) a || leb e x.addr) ≡ true)
          × (erase_loop hal (x ∷ xs) h a e ≡ erase_loop hal xs h a e))
        ⊎ (((leb (x.addr + x.size) a || leb e x.addr) ≡ false)
            × ((hal.erase_sector h x.sector).1 ≡ true)
            × (erase_loop hal (x ∷ xs) h a e
                ≡ erase_loop hal xs (hal.erase_sector h x.sector).0 a e))
        ⊎ (((leb (x.addr + x.size) a || leb e x.addr) ≡ false)
            × (erase_loop hal (x ∷ xs) h a e
                ≡ ((hal.lock (hal.erase_sector h x.sector).0).0, false)))
  unfolding erase_loop failed_locked
  loop_cases x xs h a e = elim (Bool-cases (leb (x.addr + x.size) a || leb e x.addr)) [
    | inl t ↦ inl (t, rw (t, erase_loop))
    | inr t ↦ elim (Bool-cases (hal.erase_sector h x.sector).1) [
      | inl g ↦ inr (inl (t, g, rw (t, g, erase_loop)))
      | inr g ↦ inr (inr (t, rw (t, g, erase_loop)))
    ]
  ]

  abbrev pub Erased : ℕ → H × Bool → Type 0
  Erased i r = r.1 ≡ true → cell r.0 i ≡ 255

  pub erase_loop-Erased :
      (xs : List Sector) (h : H) (a e i : ℕ)
      → AllSectors hal cell xs
      → ((h : H) (i : ℕ) → cell (hal.lock h).0 i ≡ cell h i)
      → a ≤ i
      → i < e
      → (cell h i ≡ 255) ⊎ InSome i xs
      → Erased i (erase_loop hal xs h a e)
  unfolding erase_loop
  erase_loop-Erased [] h a e i good lock lo hi (inl b) = λ ok. lock h i ∙ b
  erase_loop-Erased [] h a e i good lock lo hi (inr no_sector) = elim no_sector [ ]
  erase_loop-Erased (x ∷ xs) h a e i good lock lo hi was = elim (loop_cases x xs h a e) [
    | inl (t, q) ↦ subst (Erased i) (sym q) (
        erase_loop-Erased xs h a e i good.1 lock lo hi (elim was [
          | inl b ↦ inl b
          | inr (inl inside) ↦ absurd (ground arith)
          | inr (inr later) ↦ inr later
        ]))
    | inr (inl (t, g, q)) ↦
        let h' = (hal.erase_sector h x.sector).0 in
        let next : (cell h' i ≡ 255) ⊎ InSome i xs =
          elim (Bool-cases (leb x.addr i && ltb i (x.addr + x.size))) [
            | inl inside ↦ inl (good.0.blank h i g (ground arith) (ground arith))
            | inr out ↦ elim was [
              | inl b ↦ inl (good.0.keeps h i (outside x i out) ∙ b)
              | inr (inl inside) ↦ absurd (ground arith)
              | inr (inr later) ↦ inr later
            ]
          ] in
        subst (Erased i) (sym q) (erase_loop-Erased xs h' a e i good.1 lock lo hi next)
    | inr (inr (t, q)) ↦ subst (Erased i) (sym q) (λ ok. absurd (cc ok))
  ]

  pub erase_loop-keeps :
      (xs : List Sector) (h : H) (a e i : ℕ)
      → AllSectors hal cell xs
      → ((h : H) (i : ℕ) → cell (hal.lock h).0 i ≡ cell h i)
      → AllClear a i xs
      → cell (erase_loop hal xs h a e).0 i ≡ cell h i
  unfolding erase_loop
  erase_loop-keeps [] h a e i good lock clear = lock h i
  erase_loop-keeps (x ∷ xs) h a e i good lock clear = elim (loop_cases x xs h a e) [
    | inl (t, q) ↦ ap (λ r. cell r.0 i) q ∙ erase_loop-keeps xs h a e i good.1 lock clear.1
    | inr (inl (t, g, q)) ↦
        ap (λ r. cell r.0 i) q
        ∙ erase_loop-keeps xs (hal.erase_sector h x.sector).0 a e i good.1 lock clear.1
        ∙ good.0.keeps h i (left_out x a e i t clear.0)
    | inr (inr (t, q)) ↦
        ap (λ r. cell r.0 i) q
        ∙ lock (hal.erase_sector h x.sector).0 i
        ∙ good.0.keeps h i (left_out x a e i t clear.0)
  ]

  -- A round writes what it says, changes nothing else, and leaves what comes after.
  record Round (h : H) (a : ℕ) (bytes : List ℕ) (r : H × Bool × ℕ) : Type 0 where
    some_taken : 0 < r.2
    not_past : r.2 ≤ length bytes
    keeps : (i : ℕ) → Outside a r.2 i → cell r.0 i ≡ cell h i
    stores :
        AllBelow 256 bytes
        → r.1 ≡ true
        → ((i : ℕ) → a ≤ i → i < a + r.2 → cell h i ≡ 255)
        → (k : ℕ) → k < r.2
        → cell r.0 (a + k) ≡ byte_at bytes k

  module _ (part : IsIntFlash hal cell) where
    program_next-Round :
        (h : H) (a b : ℕ) (bs : List ℕ) → Round h a (b ∷ bs) (program_next hal h a (b ∷ bs))
    unfolding program_next
    program_next-Round h a b bs = elim (Bool-cases ((a % 4 == 0) && leb 4 (length (b ∷ bs)))) [
      | inl word ↦
          let four : 4 ≤ length (b ∷ bs) = ground arith in
          rw word (record {
            some_taken = omega arith;
            not_past = four;
            keeps = λ i out. part.word_keeps h a (get_le32 (b ∷ bs) 0) i out;
            stores = λ small ok was k p.
                part.word_blank h a (get_le32 (b ∷ bs) 0) k (ground arith) ok p
                  (was (a + k) (omega arith) (omega arith))
                ∙ byte_of_bytes (b ∷ bs) k small four p;
          })
      | inr byte ↦ rw byte (record {
        some_taken = omega arith;
        not_past = omega arith;
        keeps = λ i out. part.byte_keeps h a b i out;
        stores = λ small ok was k p.
            let at_a : a + k ≡ a = omega arith in
            ap (cell (hal.program_byte h a b).0) at_a
            ∙ part.byte_blank h a b ok (was a (omega arith) (omega arith)) small.0
            ∙ ap (byte_at (b ∷ bs)) {x = 0} {y = k} (omega arith);
      })
    ]

    -- What a write from `a` on leaves.
    pub record Wrote (h : H) (a : ℕ) (bytes : List ℕ) (r : H × Bool) : Type 0 where
      pub keeps : (i : ℕ) → Outside a (length bytes) i → cell r.0 i ≡ cell h i
      pub stores :
          AllBelow 256 bytes
          → r.1 ≡ true
          → ((i : ℕ) → a ≤ i → i < a + length bytes → cell h i ≡ 255)
          → (k : ℕ) → k < length bytes
          → cell r.0 (a + k) ≡ byte_at bytes k

    write_loop-cases :
        (fuel : ℕ) (h : H) (a b : ℕ) (bs : List ℕ)
        → (write_loop hal (suc fuel) h a (b ∷ bs) ≡ (
            if (program_next hal h a (b ∷ bs)).1
            then write_loop hal fuel
                (program_next hal h a (b ∷ bs)).0
                (u32 (a + (program_next hal h a (b ∷ bs)).2))
                (drop (program_next hal h a (b ∷ bs)).2 (b ∷ bs))
            else ((hal.lock (program_next hal h a (b ∷ bs)).0).0, false)))
    unfolding write_loop failed_locked
    write_loop-cases fuel h a b bs = elim (Bool-cases (program_next hal h a (b ∷ bs)).1) [
      | inl g ↦ rw (g, write_loop)
      | inr g ↦ rw (g, write_loop)
    ]

    pub write_loop-Wrote :
        (fuel : ℕ) (h : H) (a : ℕ) (bytes : List ℕ)
        → length bytes < fuel
        → a + length bytes < 2 ^ 32
        → Wrote h a bytes (write_loop hal fuel h a bytes)
    unfolding write_loop
    write_loop-Wrote zero h a bytes f fits = absurd (omega arith)
    write_loop-Wrote (suc fuel) h a [] f fits = record {
      keeps = λ i out. part.lock_keeps h i;
      stores = λ small ok was k p. absurd (omega arith);
    }
    write_loop-Wrote (suc fuel) h a (b ∷ bs) f fits =
        let round = program_next-Round h a b bs in
        let r = program_next hal h a (b ∷ bs) in
        let rest = drop r.2 (b ∷ bs) in
        let left : length rest ≡ length (b ∷ bs) - r.2 = length-drop r.2 (b ∷ bs) in
        subst (Wrote h a (b ∷ bs)) (sym (write_loop-cases fuel h a b bs)) (elim (Bool-cases r.1) [
          | inr g ↦ subst (Wrote h a (b ∷ bs)) (sym (if_false r.1 _ _ g)) (record {
            keeps = λ i out.
                part.lock_keeps r.0 i
                ∙ round.keeps i (part_out a r.2 (length (b ∷ bs)) i round.not_past out);
            stores = λ small ok. absurd (cc ok);
          })
          | inl g ↦
              let next =
                write_loop-Wrote fuel r.0 (u32 (a + r.2)) rest
                  (omega (arith, left, round.some_taken)) (omega (arith, left, round.not_past)) in
              let at_next : u32 (a + r.2) ≡ a + r.2 = omega (arith, round.not_past) in
              subst (Wrote h a (b ∷ bs)) (sym (if_true r.1 _ _ g)) (record {
                keeps = λ i out.
                    next.keeps i (elim out [
                      | inl p ↦ inl (omega (arith, at_next))
                      | inr p ↦ inr (omega (arith, at_next, left, round.not_past))
                    ])
                    ∙ round.keeps i (part_out a r.2 (length (b ∷ bs)) i round.not_past out);
                stores = λ small ok was k p. elim (Bool-cases (ltb k r.2)) [
                  | inl first ↦
                      next.keeps (a + k) (inl (ground (arith, at_next)))
                      ∙ round.stores small g (λ i lo hi. was i lo (omega (arith, round.not_past))) k
                          (ground arith)
                  | inr later ↦
                      let there : a + k ≡ u32 (a + r.2) + (k - r.2) =
                        omega (arith, at_next, ltb→le k r.2 later) in
                      ap (cell (write_loop hal fuel r.0 (u32 (a + r.2)) rest).0) there
                      ∙ next.stores (AllBelow-drop 256 r.2 (b ∷ bs) small) ok
                          (λ i lo hi.
                            round.keeps i (inr (omega (arith, at_next)))
                            ∙ was i (omega (arith, at_next)) (omega (arith, at_next, left)))
                          (k - r.2) (omega (arith, left, ltb→le k r.2 later))
                      ∙ byte_at-drop r.2 (k - r.2) (b ∷ bs)
                      ∙ ap (byte_at (b ∷ bs)) {x = r.2 + (k - r.2)} {y = k}
                          (omega (arith, ltb→le k r.2 later))
                ];
              })
        ])
