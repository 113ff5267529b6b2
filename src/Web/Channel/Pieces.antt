-- ===== src/Web/Channel/Pieces.antt =====
-- The loop over the bytes that come, one at a time.
use io_edge_hub_freertos.Common.{
  ℕ, ◌≡◌, refl, ap, ◌∙◌, Bool, true, false, List, [], ◌∷◌, Bool-cases, inl, inr,
}
use io_edge_hub_freertos.Config.Flash.{Flash}
use io_edge_hub_freertos.Web.Channel.{Channel, Tcp, feed_byte, feed_loop, ws_feed}

elim_true : {A : Type 0} (b : Bool) (x y : A) → b ≡ true → (elim b [ true ↦ x | false ↦ y ]) ≡ x
elim_true true x y e = refl
elim_true false x y e = absurd (cc)

elim_false : {A : Type 0} (b : Bool) (x y : A) → b ≡ false → (elim b [ true ↦ x | false ↦ y ]) ≡ y
elim_false true x y e = absurd (cc)
elim_false false x y e = refl

module _ {F L : Type 0} (fl : Flash F) (tcp : Tcp L)
    (on_text : Channel F L → List ℕ → Channel F L) where
  ws_feed_on :
      (k : Channel F L) (bytes : List ℕ)
      → k.ws.active ≡ true
      → ws_feed fl tcp on_text k bytes ≡ feed_loop fl tcp on_text k bytes
  unfolding ws_feed
  ws_feed_on k bytes on = elim_true k.ws.active (feed_loop fl tcp on_text k bytes) k on

  pub ws_feed_off :
      (k : Channel F L) (bytes : List ℕ) → k.ws.active ≡ false → ws_feed fl tcp on_text k bytes ≡ k
  unfolding ws_feed
  ws_feed_off k bytes off = elim_false k.ws.active (feed_loop fl tcp on_text k bytes) k off

  -- One byte.
  feed_loop-feed_byte :
      (k : Channel F L) (b : ℕ) (bs : List ℕ)
      → feed_loop fl tcp on_text k (b ∷ bs)
        ≡ ws_feed fl tcp on_text (feed_byte fl tcp on_text k k.ws.state b) bs
  unfolding feed_loop ws_feed
  feed_loop-feed_byte k b bs = refl

  -- The channel takes a byte and goes on.
  pub ws_feed_step :
      (k next : Channel F L) (b : ℕ) (bs : List ℕ)
      → k.ws.active ≡ true
      → feed_byte fl tcp on_text k k.ws.state b ≡ next
      → ws_feed fl tcp on_text k (b ∷ bs) ≡ ws_feed fl tcp on_text next bs
  ws_feed_step k next b bs on e =
      ws_feed_on k (b ∷ bs) on
      ∙ (feed_loop-feed_byte k b bs ∙ ap (λ t. ws_feed fl tcp on_text t bs) e)

  feed_loop_nil : (k : Channel F L) → feed_loop fl tcp on_text k [] ≡ k
  unfolding feed_loop
  feed_loop_nil k = refl

  pub ws_feed_nil : (k : Channel F L) → ws_feed fl tcp on_text k [] ≡ k
  ws_feed_nil k = elim (Bool-cases k.ws.active) [
    | inl on ↦ ws_feed_on k [] on ∙ feed_loop_nil k
    | inr off ↦ ws_feed_off k [] off
  ]
