-- ===== src/Web/Handshake/Tests.antt =====
-- The request of RFC 6455, with the name in other letters.
use io_edge_hub_freertos.Common.{
  ℕ, ◌+◌, ◌≡◌, ◌<◌, refl, ap, arith, true, some, List, [], ◌∷◌, ◌++◌, byte_at,
}
use io_edge_hub_freertos.Config.Flash.{cells}
use io_edge_hub_freertos.Web.Base64.{b64_encode}
use io_edge_hub_freertos.Web.Base64.Standard.{base64}
use io_edge_hub_freertos.Web.Sha1.Standard.{message_digest}
use io_edge_hub_freertos.Web.Sha1.{sha1_init, sha1_final, sha1_block}
use io_edge_hub_freertos.Web.Handshake.{response_start, named_at, ws_handshake}
use io_edge_hub_freertos.Web.Handshake.Accept.{key_guid, ws_handshake-accept_digest}

abbrev request : List ℕ
request =
    115 ∷ 101 ∷ 99 ∷ 45 ∷ 119 ∷ 101 ∷ 98 ∷ 115 ∷ 111 ∷ 99 ∷ 107 ∷ 101 ∷ 116 ∷ 45 ∷ 75 ∷ 69 ∷ 89 ∷ 58
    ∷ 32 ∷ 100 ∷ 71 ∷ 104 ∷ 108 ∷ 73 ∷ 72 ∷ 78 ∷ 104 ∷ 98 ∷ 88 ∷ 66 ∷ 115 ∷ 90 ∷ 83 ∷ 66 ∷ 117 ∷ 98
    ∷ 50 ∷ 53 ∷ 106 ∷ 90 ∷ 81 ∷ 61 ∷ 61 ∷ 13 ∷ 10 ∷ 13 ∷ 10 ∷ []

named : named_at request 0 ≡ true
unfolding named_at
named = refl

-- The answer that the RFC gives.
accepted :
    ws_handshake request 47 200
    ≡ some (
        response_start
        ++ (115 ∷ 51 ∷ 112 ∷ 80 ∷ 76 ∷ 77 ∷ 66 ∷ 105 ∷ 84 ∷ 120 ∷ 97 ∷ 81 ∷ 57 ∷ 107 ∷ 89 ∷ 71 ∷ 122
            ∷ 122 ∷ 104 ∷ 90 ∷ 82 ∷ 98 ∷ 75 ∷ 43 ∷ 120 ∷ 79 ∷ 111 ∷ 61 ∷ 13 ∷ 10 ∷ 13 ∷ 10 ∷ []))
unfolding ws_handshake b64_encode sha1_final sha1_init sha1_block
accepted = refl

ws_handshake-accept_digest_example :
    ws_handshake request 47 200
    ≡ some (
        response_start
        ++ (base64 (message_digest (cells (byte_at request) 19 24 ++ key_guid))
            ++ (13 ∷ 10 ∷ 13 ∷ 10 ∷ [])))
ws_handshake-accept_digest_example =
    ws_handshake-accept_digest request 47 200 0 1 (omega arith) (omega arith) (omega arith)
      (λ j low. absurd (omega arith)) named (λ j low. one_space j low) (λ e. omega arith)
  where
    one_space : (j : ℕ) → j < 1 → byte_at request (18 + j) ≡ 32
    one_space j low = ap (λ k. byte_at request (18 + k)) {x = j} {y = 0} (omega arith)
