-- ===== src/Web/Base64/Tests.antt =====
-- Base64 of concrete bytes.
use io_edge_hub_freertos.Common.{◌≡◌, refl, arith, some, [], ◌∷◌}
use io_edge_hub_freertos.Web.Base64.{b64_encode, b64_decode}
use io_edge_hub_freertos.Web.Base64.RoundTrip.{b64_decode-encode}

encode_man : b64_encode (77 ∷ 97 ∷ 110 ∷ 77 ∷ []) ≡ 84 ∷ 87 ∷ 70 ∷ 117 ∷ 84 ∷ 81 ∷ 61 ∷ 61 ∷ []
unfolding b64_encode
encode_man = refl

decode_man :
    b64_decode (84 ∷ 87 ∷ 70 ∷ 117 ∷ 84 ∷ 81 ∷ 61 ∷ 61 ∷ []) 4 ≡ some (77 ∷ 97 ∷ 110 ∷ 77 ∷ [])
unfolding b64_decode
decode_man = refl

b64_decode-encode_example :
    b64_decode (b64_encode (1 ∷ 2 ∷ 3 ∷ 255 ∷ [])) 4 ≡ some (1 ∷ 2 ∷ 3 ∷ 255 ∷ [])
b64_decode-encode_example =
    b64_decode-encode (1 ∷ 2 ∷ 3 ∷ 255 ∷ []) 4
      (omega arith, (omega arith, (omega arith, (omega arith, tt)))) (omega arith)
