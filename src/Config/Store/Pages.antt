-- ===== src/Config/Store/Pages.antt =====
-- `write_pages` against the documented flash: it keeps to the page limits, touches nothing
-- outside its range, and on success has stored the buffer in a range that was erased.
use io_edge_hub_freertos.Common.{ℕ, zero, suc, ◌+◌, ◌-◌, ◌≤◌, ◌<◌, ◌≡◌, refl}
use io_edge_hub_freertos.Common.{arith, inl, inr, Bool, true, false, List, [], ◌∷◌, length, take}
use io_edge_hub_freertos.Common.{drop, byte_at, length-take, length-drop, bit_and, ltb, ◌∙◌}
use io_edge_hub_freertos.Common.{if◌then◌else◌, Bool-cases, ltb→lt, ltb→le, ap}
use io_edge_hub_freertos.Common.Bits.{bit_and_low}
use io_edge_hub_freertos.Config.Flash.{Flash, IsNor, Outside, InPage}
use io_edge_hub_freertos.Config.Store.{◌>>=◌, pages_loop, write_pages}

pub byte_at-take-drop :
    (off n k : ℕ) (xs : List ℕ) → k < n → byte_at (take n (drop off xs)) k ≡ byte_at xs (off + k)
byte_at-take-drop zero zero k xs h = absurd (omega arith)
byte_at-take-drop zero (suc n) k [] h = refl
byte_at-take-drop zero (suc n) zero (x ∷ xs) h = refl
byte_at-take-drop zero (suc n) (suc k) (x ∷ xs) h =
    byte_at-take-drop zero n k xs (omega arith)
    ∙ ap (byte_at xs) {x = 0 + k} {y = k} (omega arith)
    ∙ ap (byte_at (x ∷ xs)) {x = suc k} {y = 0 + suc k} (omega arith)
byte_at-take-drop (suc off) zero k xs h = absurd (omega arith)
byte_at-take-drop (suc off) (suc n) k [] h = refl
byte_at-take-drop (suc off) (suc n) k (x ∷ xs) h =
    byte_at-take-drop off (suc n) k xs h
    ∙ ap (byte_at (x ∷ xs)) {x = suc (off + k)} {y = suc off + k} (omega arith)

module _ {F : Type 0} (fl : Flash F) (cell : F → ℕ → ℕ) (nor : IsNor fl cell) where
  -- What a run from `off` on does to the flash.
  pub record Wrote (f : F) (addr : ℕ) (buf : List ℕ) (off : ℕ) (out : F × Bool) : Type 0 where
    pub keeps : (i : ℕ) → Outside (addr + off) (length buf - off) i → cell out.0 i ≡ cell f i
    pub stores :
        out.1 ≡ true
        → ((i : ℕ) → addr + off ≤ i → i < addr + length buf → cell f i ≡ 255)
        → (i : ℕ) → addr + off ≤ i
        → i < addr + length buf
        → cell out.0 i ≡ byte_at buf (i - addr)

  -- the size of the next call
  abbrev chunk : ℕ → List ℕ → ℕ → ℕ
  chunk addr buf off =
      if ltb (256 - bit_and (addr + off) 0xFF) (length buf - off)
      then 256 - bit_and (addr + off) 0xFF
      else length buf - off

  chunk_bounds :
      (addr : ℕ) (buf : List ℕ) (off : ℕ)
      → off < length buf
      → (0 < chunk addr buf off)
        × (chunk addr buf off ≤ length buf - off)
        × InPage (addr + off) (chunk addr buf off)
  chunk_bounds addr buf off h = ground (arith, bit_and_low 8 (addr + off))

  length-part :
      (addr : ℕ) (buf : List ℕ) (off : ℕ)
      → off < length buf
      → length (take (chunk addr buf off) (drop off buf)) ≡ chunk addr buf off
  length-part addr buf off h = omega (
    arith,
    length-take (chunk addr buf off) (drop off buf),
    length-drop off buf,
    chunk_bounds addr buf off h,
  )

  module _ (f : F) (addr : ℕ) (buf : List ℕ) (off : ℕ) (more : off < length buf) where
    abbrev part : List ℕ
    part = take (chunk addr buf off) (drop off buf)

    abbrev after : F × Bool
    after = fl.write f (addr + off) part

    fits : InPage (addr + off) (length part)
    fits = omega (arith, length-part addr buf off more, chunk_bounds addr buf off more)

    part_keeps : (i : ℕ) → Outside (addr + off) (length buf - off) i → cell after.0 i ≡ cell f i
    part_keeps i out =
        nor.write_keeps f (addr + off) part i fits
          (omega (arith, length-part addr buf off more, chunk_bounds addr buf off more))

    part_keeps_later : (i : ℕ) → addr + (off + chunk addr buf off) ≤ i → cell after.0 i ≡ cell f i
    part_keeps_later i h =
        nor.write_keeps f (addr + off) part i fits
          (inr (omega (arith, length-part addr buf off more)))

    part_stores :
        (i : ℕ)
        → after.1 ≡ true
        → cell f i ≡ 255
        → addr + off ≤ i
        → i < addr + (off + chunk addr buf off)
        → cell after.0 i ≡ byte_at buf (i - addr)
    part_stores i done blank lo hi =
        nor.write_blank f (addr + off) part i fits done lo
          (omega (arith, length-part addr buf off more)) blank
        ∙ byte_at-take-drop off (chunk addr buf off) (i - (addr + off)) buf (omega arith)
        ∙ ap (byte_at buf) {x = off + (i - (addr + off))} {y = i - addr} (omega arith)

    Wrote-cons :
        (out : F × Bool)
        → after.1 ≡ true
        → Wrote after.0 addr buf (off + chunk addr buf off) out
        → Wrote f addr buf off out
    Wrote-cons out done rest = record {
      keeps = λ i h. rest.keeps i (omega (arith, chunk_bounds addr buf off more)) ∙ part_keeps i h;
      stores = λ good blank i lo hi. elim (Bool-cases (ltb i (addr + (off + chunk addr buf off)))) [
        | inl e ↦
            let below : i < addr + (off + chunk addr buf off) = ltb→lt _ _ e in
            rest.keeps i (omega arith) ∙ part_stores i done (blank i lo hi) lo below
        | inr e ↦
            let above : addr + (off + chunk addr buf off) ≤ i = ltb→le _ _ e in
            rest.stores good (λ j jlo jhi. part_keeps_later j jlo ∙ blank j (omega arith) jhi) i
              above hi
      ];
    }

    Wrote-failed : after.1 ≡ false → Wrote f addr buf off (after.0, false)
    Wrote-failed bad = record { keeps = λ i h. part_keeps i h; stores = λ good. absurd (cc) }

  module _ (fuel : ℕ) (f : F) (addr : ℕ) (buf : List ℕ) (off : ℕ) where
    abbrev next : ℕ
    next = off + chunk addr buf off

    abbrev written : F × Bool
    written = fl.write f (addr + off) (take (chunk addr buf off) (drop off buf))

    pages_loop_end :
        ltb off (length buf) ≡ false → pages_loop fl (suc fuel) f addr buf off ≡ (f, true)
    unfolding pages_loop
    pages_loop_end e = rw (e, pages_loop)

    pages_loop-next :
        ltb off (length buf) ≡ true
        → written.1 ≡ true
        → pages_loop fl (suc fuel) f addr buf off ≡ pages_loop fl fuel written.0 addr buf next
    unfolding pages_loop
    pages_loop-next e done = rw (e, pages_loop) (rw (done, ◌>>=◌))

    pages_loop_failed :
        ltb off (length buf) ≡ true
        → written.1 ≡ false
        → pages_loop fl (suc fuel) f addr buf off ≡ (written.0, false)
    unfolding pages_loop
    pages_loop_failed e bad = rw (e, pages_loop) (rw (bad, ◌>>=◌))

  pages_loop-Wrote :
      (fuel : ℕ) (f : F) (addr : ℕ) (buf : List ℕ) (off : ℕ)
      → length buf - off < fuel
      → Wrote f addr buf off (pages_loop fl fuel f addr buf off)
  pages_loop-Wrote zero f addr buf off h = absurd (omega arith)
  pages_loop-Wrote (suc fuel) f addr buf off h = elim (Bool-cases (ltb off (length buf))) [
    | inr e ↦ rw (pages_loop_end fuel f addr buf off e) (record {
      keeps = λ i o. refl;
      stores = λ good blank i lo hi. absurd (omega (arith, ltb→le off (length buf) e));
    })
    | inl e ↦
        let more : off < length buf = ltb→lt off (length buf) e in
        elim (Bool-cases (written fuel f addr buf off).1) [
          | inl done ↦ rw (pages_loop-next fuel f addr buf off e done) (
              Wrote-cons f addr buf off more _ done (
                pages_loop-Wrote fuel (written fuel f addr buf off).0 addr buf
                  (next fuel f addr buf off) (omega (arith, chunk_bounds addr buf off more))))
          | inr bad ↦
              rw (pages_loop_failed fuel f addr buf off e bad)
                (Wrote-failed f addr buf off more bad)
        ]
  ]

  -- From the start of the buffer, with the fuel that the code's loop is given here.
  pub write_pages-Wrote :
      (f : F) (addr : ℕ) (buf : List ℕ) → Wrote f addr buf 0 (write_pages fl f addr buf)
  unfolding write_pages
  write_pages-Wrote f addr buf = pages_loop-Wrote (suc (length buf)) f addr buf 0 (omega arith)
