-- ===== src/Web/Sha1/Absorb.antt =====
-- Feeding a text to SHA-1: only its bytes matter, not the pieces in which they come.
use io_edge_hub_freertos.Common.{
  ℕ, zero, suc, ◌+◌, ◌-◌, ◌%◌, ◌^◌, ◌≤◌, ◌<◌, ◌≡◌, refl, sym, ap, ap₂, ◌∙◌, arith,
}
use io_edge_hub_freertos.Common.{false, List, [], ◌∷◌, ◌++◌, append_assoc, length, length-append}
use io_edge_hub_freertos.Common.{
  take, drop, take-drop, length-take, length-drop, ltb, ◌==◌, if◌then◌else◌, Bool-cases, inl, inr,
}
use io_edge_hub_freertos.Web.Sha1.{Context, sha1_block, update_loop, sha1_update}

-- The context after a buffer has grown to `buf`.
abbrev pub filled : Context → List ℕ → Context
filled c buf = record c {
  h = if length buf == 64 then sha1_block c.h buf else c.h;
  buf = if length buf == 64 then [] else buf;
}

-- One byte at a time, with no regard to the total.
unfoldable pub absorb_all : Context → List ℕ → Context
absorb_all c [] = c
absorb_all c (x ∷ xs) = absorb_all (filled c (c.buf ++ (x ∷ []))) xs

pub absorb_all-append :
    (c : Context) (xs ys : List ℕ) → absorb_all c (xs ++ ys) ≡ absorb_all (absorb_all c xs) ys
unfolding absorb_all
absorb_all-append c [] ys = refl
absorb_all-append c (x ∷ xs) ys = absorb_all-append (filled c (c.buf ++ (x ∷ []))) xs ys

-- A full buffer is emptied.
pub length-filled :
    (c : Context) (buf : List ℕ) → length buf ≤ 64 → length (filled c buf).buf ≡ length buf % 64
length-filled c buf h = elim (Bool-cases (length buf == 64)) [
  | inl full ↦ rw full (ground arith)
  | inr more ↦ rw more (ground arith)
]

pub length-absorb_all :
    (c : Context) (xs : List ℕ)
    → length c.buf < 64
    → length (absorb_all c xs).buf ≡ (length c.buf + length xs) % 64
unfolding absorb_all
length-absorb_all c [] h = omega arith
length-absorb_all c (x ∷ xs) h =
    let step : length (filled c (c.buf ++ (x ∷ []))).buf ≡ (length c.buf + 1) % 64 = omega (
      arith,
      length-append c.buf (x ∷ []),
      length-filled c (c.buf ++ (x ∷ [])) (omega (arith, length-append c.buf (x ∷ []))),
    ) in
    let rest = length-absorb_all (filled c (c.buf ++ (x ∷ []))) xs (omega (arith, step)) in
    omega (arith, step, rest)

-- Bytes that go into one buffer.
pub absorb_all-filled :
    (c : Context) (x : ℕ) (xs : List ℕ)
    → length c.buf + length (x ∷ xs) ≤ 64
    → absorb_all c (x ∷ xs) ≡ filled c (c.buf ++ (x ∷ xs))
unfolding absorb_all
absorb_all-filled c x [] h = refl
absorb_all-filled c x (y ∷ ys) h =
    let short : (length (c.buf ++ (x ∷ [])) == 64) ≡ false =
      ground (arith, length-append c.buf (x ∷ [])) in
    rw short (
      absorb_all-filled (record c { buf = c.buf ++ (x ∷ []) }) y ys
        (omega (arith, length-append c.buf (x ∷ [])))
      ∙ ap (filled c) (append_assoc c.buf (x ∷ []) (y ∷ ys)))

-- What fits into the buffer can go there at once.
absorb_all_chunk :
    (c : Context) (x : ℕ) (xs : List ℕ) (m : ℕ)
    → m ≤ length xs
    → length c.buf + suc m ≤ 64
    → absorb_all (filled c (c.buf ++ (x ∷ take m xs))) (drop m xs) ≡ absorb_all c (x ∷ xs)
absorb_all_chunk c x xs m inside fits =
    ap (λ t. absorb_all t (drop m xs))
      (sym (absorb_all-filled c x (take m xs) (omega (arith, length-take m xs))))
    ∙ (sym (absorb_all-append c (x ∷ take m xs) (drop m xs))
        ∙ ap (λ t. absorb_all c (x ∷ t)) (take-drop m xs))

update_loop_chunk :
    (fuel : ℕ) (c : Context) (x : ℕ) (xs : List ℕ) (n : ℕ)
    → ((t : Context) (p : List ℕ)
        → length t.buf < 64
        → length p < fuel
        → update_loop fuel t p ≡ absorb_all t p)
    → length xs < fuel
    → 0 < n
    → n ≤ suc (length xs)
    → length c.buf + n ≤ 64
    → update_loop fuel (filled c (c.buf ++ take n (x ∷ xs))) (drop n (x ∷ xs))
      ≡ absorb_all c (x ∷ xs)
update_loop_chunk fuel c x xs zero rest enough some inside fits = absurd (omega arith)
update_loop_chunk fuel c x xs (suc m) rest enough some inside fits =
    let grown : length (c.buf ++ (x ∷ take m xs)) ≤ 64 =
      omega (arith, length-append c.buf (x ∷ take m xs), length-take m xs) in
    rest (filled c (c.buf ++ (x ∷ take m xs))) (drop m xs)
      (omega (arith, length-filled c (c.buf ++ (x ∷ take m xs)) grown))
      (omega (arith, length-drop m xs))
    ∙ absorb_all_chunk c x xs m (omega arith) (omega arith)

-- The loop of `sha1_update` fills the buffer as often as it can.
update_loop-absorb_all :
    (fuel : ℕ) (c : Context) (p : List ℕ)
    → length c.buf < 64
    → length p < fuel
    → update_loop fuel c p ≡ absorb_all c p
unfolding update_loop absorb_all
update_loop-absorb_all zero c p room enough = absurd (omega arith)
update_loop-absorb_all (suc fuel) c [] room enough = refl
update_loop-absorb_all (suc fuel) c (x ∷ xs) room enough =
    elim (Bool-cases (ltb (length (x ∷ xs)) (64 - length c.buf))) [
      | inl small ↦ rw small (
          update_loop_chunk fuel c x xs (length (x ∷ xs)) (update_loop-absorb_all fuel)
            (omega arith) (omega arith) (omega arith) (ground arith))
      | inr large ↦ rw large (
          update_loop_chunk fuel c x xs (64 - length c.buf) (update_loop-absorb_all fuel)
            (omega arith) (omega arith) (ground arith) (omega arith))
    ]

abbrev pub with_total : Context → ℕ → Context
with_total c t = record c { total = t }

-- The total is not looked at.
pub absorb_all-with_total :
    (c : Context) (t : ℕ) (xs : List ℕ)
    → absorb_all (with_total c t) xs ≡ with_total (absorb_all c xs) t
unfolding absorb_all
absorb_all-with_total c t [] = refl
absorb_all-with_total c t (x ∷ xs) = absorb_all-with_total (filled c (c.buf ++ (x ∷ []))) t xs

pub sha1_update-absorb_all :
    (c : Context) (p : List ℕ)
    → length c.buf < 64
    → sha1_update c p ≡ with_total (absorb_all c p) ((c.total + length p) % 2 ^ 64)
unfolding sha1_update
sha1_update-absorb_all c p room =
    update_loop-absorb_all (suc (length p)) (record c { total = (c.total + length p) % 2 ^ 64 }) p
      room (omega arith)
    ∙ absorb_all-with_total c ((c.total + length p) % 2 ^ 64) p

-- Feeding a text in two pieces leaves the context that feeding it at once does, whatever the
-- context, as long as its buffer is not full.
pub sha1_update-append :
    (c : Context) (xs ys : List ℕ)
    → length c.buf < 64
    → sha1_update (sha1_update c xs) ys ≡ sha1_update c (xs ++ ys)
sha1_update-append c xs ys room =
    let left : length (absorb_all c xs).buf < 64 = omega (arith, length-absorb_all c xs room) in
    let t1 = (c.total + length xs) % 2 ^ 64 in
    ap (λ t. sha1_update t ys) (sha1_update-absorb_all c xs room)
    ∙ (sha1_update-absorb_all (with_total (absorb_all c xs) t1) ys left
        ∙ (ap (λ t. with_total t ((t1 + length ys) % 2 ^ 64))
              (absorb_all-with_total (absorb_all c xs) t1 ys)
            ∙ (ap₂ (λ t n. with_total t n) (sym (absorb_all-append c xs ys))
                  (omega (arith, length-append xs ys))
                ∙ sym (sha1_update-absorb_all c (xs ++ ys) room))))
