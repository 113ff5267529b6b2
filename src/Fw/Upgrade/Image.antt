-- ===== src/Fw/Upgrade/Image.antt =====
-- The image: what a session has received stands in the flash and in the page buffer.
use io_edge_hub_freertos.Common.{
  ℕ, zero, suc, ◌+◌, ◌-◌, ◌%◌, ◌≤◌, ◌<◌, ◌≡◌, refl, sym, ap, ◌∙◌, arith, inl, inr,
}
use io_edge_hub_freertos.Common.{
  Bool, true, false, List, [], ◌∷◌, ◌++◌, length, take, drop, take-drop, append-nil, append_assoc,
}
use io_edge_hub_freertos.Common.{
  length-append, length-take, length-drop, byte_at, ltb, ◌==◌, if◌then◌else◌,
}
use io_edge_hub_freertos.Common.{Bool-cases, ==→eq, ==→ne}
use io_edge_hub_freertos.Config.Flash.{Flash, IsNor, InPage, cells}
use io_edge_hub_freertos.Config.Store.Program.{cells_ext, cells_cong}
use io_edge_hub_freertos.Fw.Upgrade.{
  Session, page_size, slot1_size, page_flush, flush_full, write_loop, upg_write,
}

pub cells-add : (c : ℕ → ℕ) (a n m : ℕ) → cells c a (n + m) ≡ cells c a n ++ cells c (a + n) m
cells-add c a zero m =
    ap (λ k. cells c a k) {x = 0 + m} {y = m} (omega arith)
    ∙ ap (λ k. cells c k m) {x = a} {y = a + 0} (omega arith)
cells-add c a (suc n) m =
    ap (λ k. cells c a k) {x = suc n + m} {y = suc (n + m)} (omega arith)
    ∙ ap (λ t. c a ∷ t)
        (cells-add c (a + 1) n m
          ∙ ap (λ k. cells c (a + 1) n ++ cells c k m) {x = a + 1 + n} {y = a + suc n}
              (omega arith))

module _ {F : Type 0} (fl : Flash F) (cell : F → ℕ → ℕ) where
  -- The bytes that the session has received, in order.
  abbrev pub image : Session → F → List ℕ
  image s f = cells (cell f) 0 s.written ++ s.page

  -- Between two operations: whole pages are out, the buffer has room, and the slot is still erased
  -- from there on.
  pub record Receiving (s : Session) (f : F) : Type 0 where
    pub aligned : s.written % 256 ≡ 0
    pub short : length s.page < page_size
    pub fits : s.written + length s.page ≤ slot1_size
    pub blank : (i : ℕ) → s.written ≤ i → i < slot1_size → cell f i ≡ 255

  module _ (nor : IsNor fl cell)
      (good : (f : F) (a : ℕ) (bs : List ℕ)
        → InPage a (length bs)
        → a + length bs ≤ slot1_size
        → (fl.write f a bs).1 ≡ true) where
    -- A program call at the end of the image adds its bytes to the flash.
    pub written-cells :
        (f : F) (a : ℕ) (bs : List ℕ)
        → a % 256 ≡ 0
        → length bs ≤ 256
        → a + length bs ≤ slot1_size
        → ((i : ℕ) → a ≤ i → i < a + length bs → cell f i ≡ 255)
        → cells (cell (fl.write f a bs).0) 0 (a + length bs) ≡ cells (cell f) 0 a ++ bs
    written-cells f a bs al short room blank =
        cells-add (cell (fl.write f a bs).0) 0 a (length bs)
        ∙ ap (λ t. t ++ cells (cell (fl.write f a bs).0) (0 + a) (length bs))
            (cells_cong (cell (fl.write f a bs).0) (cell f) 0 a
              (λ i lo hi. nor.write_keeps f a bs i (omega arith) (inl (omega arith))))
        ∙ ap (λ t. cells (cell f) 0 a ++ t)
            (ap (λ k. cells (cell (fl.write f a bs).0) k (length bs)) {x = 0 + a} {y = a}
                (omega arith)
              ∙ cells_ext (cell (fl.write f a bs).0) a (length bs) bs refl (λ j p.
                nor.write_blank f a bs (a + j) (omega arith) (good f a bs (omega arith) room)
                  (omega arith) (omega arith) (blank (a + j) (omega arith) (omega arith))
                ∙ ap (byte_at bs) {x = a + j - a} {y = j} (omega arith)))

    -- A round's end keeps what was received.
    record Flushed (s : Session) (f : F) (r : Session × F × Bool) : Type 0 where
      same_total : r.0.total ≡ s.total
      same_active : r.0.active ≡ s.active
      same_failed : r.0.failed ≡ s.failed
      done : r.2 ≡ true
      receiving : Receiving r.0 r.1
      kept : image r.0 r.1 ≡ image s f
      pages_only : r.0.written + length r.0.page ≡ s.written + length s.page

    flush_full_out :
        (s : Session) (f : F)
        → s.written % 256 ≡ 0
        → length s.page ≡ page_size
        → s.written + length s.page ≤ slot1_size
        → flush_full fl s f ≡ (
          record s { written = s.written + length s.page; page = [] },
          (fl.write f s.written s.page).0,
          true,
        )
    unfolding flush_full page_flush
    flush_full_out s f al e fits =
        let zero_add : 0 + s.written ≡ s.written = omega arith in
        ground (arith, good f s.written s.page (omega arith) (omega arith), zero_add)

    flush_full-Flushed :
        (s : Session) (f : F)
        → s.written % 256 ≡ 0
        → length s.page ≤ page_size
        → s.written + length s.page ≤ slot1_size
        → ((i : ℕ) → s.written ≤ i → i < slot1_size → cell f i ≡ 255)
        → Flushed s f (flush_full fl s f)
    unfolding flush_full page_flush
    flush_full-Flushed s f al short fits blank = elim (Bool-cases (length s.page == page_size)) [
      | inl e ↦
          let size = ==→eq _ _ e in
          rw (flush_full_out s f al size fits) (record {
            same_total = refl;
            same_active = refl;
            same_failed = refl;
            done = refl;
            receiving = record {
              aligned = omega arith;
              short = omega arith;
              fits = omega arith;
              blank = λ i lo hi.
                  nor.write_keeps f s.written s.page i (omega arith) (inr lo)
                  ∙ blank i (omega arith) hi;
            };
            kept =
                append-nil
                  (cells (cell (fl.write f s.written s.page).0) 0 (s.written + length s.page))
                ∙ written-cells f s.written s.page al short fits
                    (λ i lo hi. blank i lo (omega arith));
            pages_only = omega arith;
          })
      | inr e ↦ rw e (record {
        same_total = refl;
        same_active = refl;
        same_failed = refl;
        done = refl;
        receiving = record {
          aligned = al;
          short = omega (arith, ==→ne _ _ e);
          fits = fits;
          blank = blank;
        };
        kept = refl;
        pages_only = refl;
      })
    ]

    -- What a run of the loop leaves.
    pub record Took (s : Session) (f : F) (bytes : List ℕ) (r : Session × F × Bool) : Type 0 where
      pub same_total : r.0.total ≡ s.total
      pub same_active : r.0.active ≡ s.active
      pub same_failed : r.0.failed ≡ s.failed
      pub done : r.2 ≡ true
      pub receiving : Receiving r.0 r.1
      pub appended : image r.0 r.1 ≡ image s f ++ bytes
      pub count : r.0.written + length r.0.page ≡ s.written + length s.page + length bytes

    abbrev chunk : Session → List ℕ → ℕ
    chunk s bytes =
        if ltb (length bytes) (page_size - length s.page)
        then length bytes
        else page_size - length s.page

    abbrev filled : Session → List ℕ → Session
    filled s bytes = record s { page = s.page ++ take (chunk s bytes) bytes }

    length-filled :
        (s : Session) (b : ℕ) (bs : List ℕ)
        → length s.page < page_size
        → (length (filled s (b ∷ bs)).page ≡ length s.page + chunk s (b ∷ bs))
          × (0 < chunk s (b ∷ bs))
          × (length s.page + chunk s (b ∷ bs) ≤ page_size)
          × (chunk s (b ∷ bs) ≤ length (b ∷ bs))
    length-filled s b bs short = (
      ground (
        arith,
        length-append s.page (take (chunk s (b ∷ bs)) (b ∷ bs)),
        length-take (chunk s (b ∷ bs)) (b ∷ bs),
      ),
      ground arith,
      ground arith,
      ground arith,
    )

    write_loop-next :
        (fuel : ℕ) (s : Session) (f : F) (b : ℕ) (bs : List ℕ)
        → (flush_full fl (filled s (b ∷ bs)) f).2 ≡ true
        → write_loop fl (suc fuel) s f (b ∷ bs)
          ≡ write_loop fl fuel
              (flush_full fl (filled s (b ∷ bs)) f).0
              (flush_full fl (filled s (b ∷ bs)) f).1
              (drop (chunk s (b ∷ bs)) (b ∷ bs))
    unfolding write_loop
    write_loop-next fuel s f b bs e = rw (e, write_loop)

    split_image : (c p xs : List ℕ) (n : ℕ) → (c ++ (p ++ take n xs)) ++ drop n xs ≡ (c ++ p) ++ xs
    split_image c p xs n =
        ap (λ t. t ++ drop n xs) (sym (append_assoc c p (take n xs)))
        ∙ append_assoc (c ++ p) (take n xs) (drop n xs)
        ∙ ap (λ t. (c ++ p) ++ t) (take-drop n xs)

    write_loop-Took :
        (fuel : ℕ) (s : Session) (f : F) (bytes : List ℕ)
        → length bytes < fuel
        → Receiving s f
        → s.written + length s.page + length bytes ≤ slot1_size
        → Took s f bytes (write_loop fl fuel s f bytes)
    write_loop-Took zero s f bytes h v fits = absurd (omega arith)
    write_loop-Took (suc fuel) s f [] h v fits =
        unfold write_loop in
        record {
          same_total = refl;
          same_active = refl;
          same_failed = refl;
          done = refl;
          receiving = v;
          appended = sym (append-nil (image s f));
          count = omega arith;
        }
    write_loop-Took (suc fuel) s f (b ∷ bs) h v fits =
        let (size, pos, most, available) = length-filled s b bs v.short in
        let s1 = filled s (b ∷ bs) in
        let out =
          flush_full-Flushed s1 f v.aligned (omega (arith, size)) (omega (arith, size)) v.blank in
        let r = flush_full fl s1 f in
        let rest = drop (chunk s (b ∷ bs)) (b ∷ bs) in
        let left : length rest ≡ length (b ∷ bs) - chunk s (b ∷ bs) =
          length-drop (chunk s (b ∷ bs)) (b ∷ bs) in
        let next =
          write_loop-Took fuel r.0 r.1 rest (omega (arith, left)) out.receiving
            (omega (arith, left, out.pages_only, size)) in
        rw (write_loop-next fuel s f b bs out.done) (record {
          same_total = next.same_total ∙ out.same_total;
          same_active = next.same_active ∙ out.same_active;
          same_failed = next.same_failed ∙ out.same_failed;
          done = next.done;
          receiving = next.receiving;
          appended =
              next.appended
              ∙ ap (λ t. t ++ rest) out.kept
              ∙ split_image (cells (cell f) 0 s.written) s.page (b ∷ bs) (chunk s (b ∷ bs));
          count = omega (arith, next.count, left, out.pages_only, size);
        })

    -- In a session that receives and has not failed, on a NOR flash whose program calls within
    -- a page of the slot succeed,
    -- bytes that stay within the announced total, itself within the slot, are taken: the call
    -- succeeds, the session goes on without a failure, and what it has received is what it had, followed
    -- by the bytes.
    pub upg_write-Took :
        (s : Session) (f : F) (bytes : List ℕ)
        → s.active ≡ true
        → s.failed ≡ false
        → Receiving s f
        → s.written + length s.page + length bytes ≤ s.total
        → s.total ≤ slot1_size
        → Took s f bytes (upg_write fl s f bytes)
    unfolding upg_write
    upg_write-Took s f bytes on ok v fits room =
        let out = write_loop-Took (suc (length bytes)) s f bytes (omega arith) v (omega arith) in
        rw (taken out.done) (record {
          same_total = out.same_total;
          same_active = out.same_active;
          same_failed = out.same_failed;
          done = refl;
          receiving = out.receiving;
          appended = out.appended;
          count = out.count;
        })
      where
        taken :
            (write_loop fl (suc (length bytes)) s f bytes).2 ≡ true
            → upg_write fl s f bytes ≡ (
              (write_loop fl (suc (length bytes)) s f bytes).0,
              (write_loop fl (suc (length bytes)) s f bytes).1,
              true,
            )
        taken e = ground arith
