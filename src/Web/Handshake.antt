-- ===== src/Web/Handshake.antt =====
-- src/web/ws.c: ws_handshake. The request's buffer is read beyond `hdr_len` where the code does so;
-- beyond the buffer a read gives 0.
pub mod Accept
mod Tests
use io_edge_hub_freertos.Common.{
  ℕ, zero, suc, ◌+◌, ◌-◌, Bool, true, false, not, ◌&&◌, Option, none, some, List, [], ◌∷◌, ◌++◌,
  length,
}
use io_edge_hub_freertos.Common.{byte_at, ltb, leb, ◌==◌, if◌then◌else◌}
use io_edge_hub_freertos.Config.Flash.{cells}
use io_edge_hub_freertos.Web.Base64.{b64_encode}
use io_edge_hub_freertos.Web.Sha1.{sha1_init, sha1_update, sha1_final}

-- `guid`
abbrev pub guid : List ℕ
guid =
    50 ∷ 53 ∷ 56 ∷ 69 ∷ 65 ∷ 70 ∷ 65 ∷ 53 ∷ 45 ∷ 69 ∷ 57 ∷ 49 ∷ 52 ∷ 45 ∷ 52 ∷ 55 ∷ 68 ∷ 65 ∷ 45
    ∷ 57 ∷ 53 ∷ 67 ∷ 65 ∷ 45 ∷ 67 ∷ 53 ∷ 65 ∷ 66 ∷ 48 ∷ 68 ∷ 67 ∷ 56 ∷ 53 ∷ 66 ∷ 49 ∷ 49 ∷ []

-- The name of the header, of `klen` characters.
abbrev pub key_name : List ℕ
key_name =
    83 ∷ 101 ∷ 99 ∷ 45 ∷ 87 ∷ 101 ∷ 98 ∷ 83 ∷ 111 ∷ 99 ∷ 107 ∷ 101 ∷ 116 ∷ 45 ∷ 75 ∷ 101 ∷ 121 ∷ 58
    ∷ []

-- The response up to the accepted key.
abbrev pub response_start : List ℕ
response_start =
    72 ∷ 84 ∷ 84 ∷ 80 ∷ 47 ∷ 49 ∷ 46 ∷ 49 ∷ 32 ∷ 49 ∷ 48 ∷ 49 ∷ 32 ∷ 83 ∷ 119 ∷ 105 ∷ 116 ∷ 99 ∷ 104
    ∷ 105 ∷ 110 ∷ 103 ∷ 32 ∷ 80 ∷ 114 ∷ 111 ∷ 116 ∷ 111 ∷ 99 ∷ 111 ∷ 108 ∷ 115 ∷ 13 ∷ 10 ∷ 85 ∷ 112
    ∷ 103 ∷ 114 ∷ 97 ∷ 100 ∷ 101 ∷ 58 ∷ 32 ∷ 119 ∷ 101 ∷ 98 ∷ 115 ∷ 111 ∷ 99 ∷ 107 ∷ 101 ∷ 116 ∷ 13
    ∷ 10 ∷ 67 ∷ 111 ∷ 110 ∷ 110 ∷ 101 ∷ 99 ∷ 116 ∷ 105 ∷ 111 ∷ 110 ∷ 58 ∷ 32 ∷ 85 ∷ 112 ∷ 103 ∷ 114
    ∷ 97 ∷ 100 ∷ 101 ∷ 13 ∷ 10 ∷ 83 ∷ 101 ∷ 99 ∷ 45 ∷ 87 ∷ 101 ∷ 98 ∷ 83 ∷ 111 ∷ 99 ∷ 107 ∷ 101
    ∷ 116 ∷ 45 ∷ 65 ∷ 99 ∷ 99 ∷ 101 ∷ 112 ∷ 116 ∷ 58 ∷ 32 ∷ []

-- strncasecmp of the C library on a character: in lower case.
abbrev pub lower : ℕ → ℕ
lower c = if leb 65 c && leb c 90 then c + 32 else c

-- strncasecmp(…) == 0 for two texts of the same length, the second without a NUL
unfoldable pub same_nocase : List ℕ → List ℕ → Bool
same_nocase [] ys = true
same_nocase (x ∷ xs) [] = true
same_nocase (x ∷ xs) (y ∷ ys) = (lower x == lower y) && same_nocase xs ys

-- The test of the search at an index.
unfoldable pub named_at : List ℕ → ℕ → Bool
unfolding same_nocase
named_at req_hdr i = same_nocase (cells (byte_at req_hdr) i 18) key_name

-- The search for the name over the indices that are left; the result is where the value begins.
unfoldable pub find_key : List ℕ → ℕ → ℕ → Option ℕ
unfolding named_at
find_key req_hdr zero i = none
find_key req_hdr (suc left) i = elim (named_at req_hdr i) [
  | true ↦ some (i + 18)
  | false ↦ find_key req_hdr left (i + 1)
]

-- `while (*key == ' ')`, with fuel; the buffer is followed by a byte that is no space.
unfoldable pub skip_spaces : List ℕ → ℕ → ℕ → ℕ
skip_spaces req_hdr zero key = key
skip_spaces req_hdr (suc fuel) key = elim (byte_at req_hdr key == 32) [
  | true ↦ skip_spaces req_hdr fuel (key + 1)
  | false ↦ key
]

-- The response for a digest; `none` is false.
unfoldable pub ws_response : List ℕ → ℕ → Option (List ℕ)
ws_response digest resp_max =
    let accept = b64_encode digest in
    let resp = response_start ++ (accept ++ (13 ∷ 10 ∷ 13 ∷ 10 ∷ [])) in
    if not (length accept == 28)
    then none
    else if leb resp_max (length resp)
    then none
    else some resp

-- The digest for a value that begins at an index.
unfoldable pub key_digest : List ℕ → ℕ → List ℕ
unfolding skip_spaces
key_digest req_hdr value =
    let key = skip_spaces req_hdr (length req_hdr) value in
    sha1_final (sha1_update (sha1_update sha1_init (cells (byte_at req_hdr) key 24)) guid)

unfoldable pub ws_handshake : List ℕ → ℕ → ℕ → Option (List ℕ)
unfolding find_key key_digest ws_response
ws_handshake req_hdr hdr_len resp_max = elim (find_key req_hdr (hdr_len - 18) 0) [
  | none ↦ none
  | some value ↦ ws_response (key_digest req_hdr value) resp_max
]
