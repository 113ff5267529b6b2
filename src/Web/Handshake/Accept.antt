-- ===== src/Web/Handshake/Accept.antt =====
-- The key of the request is found, and the answer proves that it was read.
use io_edge_hub_freertos.Common.{
  ℕ, zero, suc, ◌+◌, ◌-◌, ◌/◌, ◌≤◌, ◌<◌, ◌≡◌, ◌≢◌, refl, sym, ap, ◌∙◌, arith, true, false, not,
}
use io_edge_hub_freertos.Common.{
  none, some, List, [], ◌∷◌, ◌++◌, length, length-append, byte_at, ltb, leb, ◌==◌, if_false,
  Bool-cases, inl, inr, ltb→lt, eq→==, ne→==,
}
use io_edge_hub_freertos.Config.Flash.{cells}
use io_edge_hub_freertos.Web.Base64.{b64_encode}
use io_edge_hub_freertos.Web.Base64.Standard.{base64, b64_encode-base64}
use io_edge_hub_freertos.Web.Sha1.Standard.{message_digest}
use io_edge_hub_freertos.Web.Sha1.Standard.Digest.{message_digest_below, output-message_digest}
use io_edge_hub_freertos.Web.Sha1.{Words, initial, sha1_init, sha1_update, sha1_final, output}
use io_edge_hub_freertos.Web.Sha1.Absorb.{sha1_update-append}
use io_edge_hub_freertos.Web.Sha1.Padding.{padded, hash_blocks, sha1-hash_blocks}
use io_edge_hub_freertos.Web.Handshake.{
  guid, response_start, named_at, find_key, skip_spaces, key_digest, ws_response, ws_handshake,
}

find_key-first :
    (req_hdr : List ℕ) (left i p : ℕ)
    → i ≤ p
    → p < i + left
    → ((j : ℕ) → j < p → named_at req_hdr j ≡ false)
    → named_at req_hdr p ≡ true
    → find_key req_hdr left i ≡ some (p + 18)
unfolding find_key
find_key-first req_hdr zero i p h lo before here = absurd (omega arith)
find_key-first req_hdr (suc left) i p h lo before here = elim (Bool-cases (ltb i p)) [
  | inl sooner ↦
      let no : named_at req_hdr i ≡ false = before i (ltb→lt i p sooner) in
      let le : i + 1 ≤ p = ground arith in
      rw (no, find_key) (find_key-first req_hdr left (i + 1) p le (omega arith) before here)
  | inr reached ↦
      let same : i ≡ p = ground arith in
      let yes : named_at req_hdr i ≡ true = ap (named_at req_hdr) same ∙ here in
      rw (yes, find_key) (ap (λ k. some (k + 18)) same)
]

skip_spaces_end :
    (req_hdr : List ℕ) (fuel n key : ℕ)
    → n < fuel
    → ((j : ℕ) → j < n → byte_at req_hdr (key + j) ≡ 32)
    → byte_at req_hdr (key + n) ≢ 32
    → skip_spaces req_hdr fuel key ≡ key + n
unfolding skip_spaces
skip_spaces_end req_hdr zero n key enough spaces stop = absurd (omega arith)
skip_spaces_end req_hdr (suc fuel) zero key enough spaces stop =
    let start : key + 0 ≡ key = omega arith in
    let over : (byte_at req_hdr key == 32) ≡ false =
      ne→== (byte_at req_hdr key) 32 (λ e. stop (ap (byte_at req_hdr) start ∙ e)) in
    rw (over, skip_spaces) (sym start)
skip_spaces_end req_hdr (suc fuel) (suc n) key enough spaces stop =
    let start : key ≡ key + 0 = omega arith in
    let space : (byte_at req_hdr key == 32) ≡ true =
      eq→== (byte_at req_hdr key) 32 (ap (byte_at req_hdr) start ∙ spaces 0 (omega arith)) in
    let shift : (j : ℕ) → key + 1 + j ≡ key + suc j = λ j. omega arith in
    rw (space, skip_spaces)
      (skip_spaces_end req_hdr fuel n (key + 1) (omega arith)
          (λ j low. ap (byte_at req_hdr) (shift j) ∙ spaces (suc j) (omega arith))
          (λ e. stop (ap (byte_at req_hdr) (sym (shift n)) ∙ e))
        ∙ shift n)

too_short : (m : ℕ) → 130 ≤ m → leb m 129 ≡ false
too_short m h = ground arith

length-accept : (h : Words) → length (b64_encode (output h)) ≡ 28
unfolding b64_encode output
length-accept h = refl

-- The digest of the key with the constant, block by block.
abbrev accept_digest : List ℕ → List ℕ
accept_digest key =
    output (hash_blocks (length (padded (key ++ guid)) / 64) initial (padded (key ++ guid)))

digest-key :
    (key : List ℕ)
    → length key ≡ 24
    → sha1_final (sha1_update (sha1_update sha1_init key) guid) ≡ accept_digest key
unfolding sha1_init
digest-key key size =
    ap sha1_final (sha1_update-append sha1_init key guid (omega arith))
    ∙ (sha1-hash_blocks (key ++ guid) (omega (arith, length-append key guid))).1

ws_response-accept_digest :
    (key : List ℕ) (resp_max : ℕ)
    → 130 ≤ resp_max
    → ws_response (accept_digest key) resp_max
      ≡ some (response_start ++ (b64_encode (accept_digest key) ++ (13 ∷ 10 ∷ 13 ∷ 10 ∷ [])))
unfolding ws_response
ws_response-accept_digest key resp_max room =
    let resp = response_start ++ (b64_encode (accept_digest key) ++ (13 ∷ 10 ∷ 13 ∷ 10 ∷ [])) in
    let whole : length (b64_encode (accept_digest key)) ≡ 28 =
      length-accept
        (hash_blocks (length (padded (key ++ guid)) / 64) initial (padded (key ++ guid))) in
    let total : length resp ≡ 129 = omega (
      arith,
      length-append response_start (b64_encode (accept_digest key) ++ (13 ∷ 10 ∷ 13 ∷ 10 ∷ [])),
      length-append (b64_encode (accept_digest key)) (13 ∷ 10 ∷ 13 ∷ 10 ∷ []),
      whole,
    ) in
    if_false (not (length (b64_encode (accept_digest key)) == 28)) _ _
      (ap not (eq→== (length (b64_encode (accept_digest key))) 28 whole))
    ∙ if_false (leb resp_max (length resp)) _ _ (ap (leb resp_max) total ∙ too_short resp_max room)

key_digest_lem :
    (req_hdr : List ℕ) (value n : ℕ)
    → skip_spaces req_hdr (length req_hdr) value ≡ value + n
    → key_digest req_hdr value ≡ accept_digest (cells (byte_at req_hdr) (value + n) 24)
unfolding key_digest
key_digest_lem req_hdr value n skipped =
    ap (λ k. sha1_final (sha1_update (sha1_update sha1_init (cells (byte_at req_hdr) k 24)) guid))
      skipped
    ∙ digest-key (cells (byte_at req_hdr) (value + n) 24) refl

ws_handshake_found :
    (req_hdr : List ℕ) (hdr_len resp_max value : ℕ)
    → find_key req_hdr (hdr_len - 18) 0 ≡ some value
    → ws_handshake req_hdr hdr_len resp_max ≡ ws_response (key_digest req_hdr value) resp_max
unfolding ws_handshake
ws_handshake_found req_hdr hdr_len resp_max value found =
    ap (λ t. elim t [ none ↦ none | some v ↦ ws_response (key_digest req_hdr v) resp_max ]) found

-- RFC 6455: the constant that is appended to the key.
abbrev pub key_guid : List ℕ
key_guid =
    50 ∷ 53 ∷ 56 ∷ 69 ∷ 65 ∷ 70 ∷ 65 ∷ 53 ∷ 45 ∷ 69 ∷ 57 ∷ 49 ∷ 52 ∷ 45 ∷ 52 ∷ 55 ∷ 68 ∷ 65 ∷ 45
    ∷ 57 ∷ 53 ∷ 67 ∷ 65 ∷ 45 ∷ 67 ∷ 53 ∷ 65 ∷ 66 ∷ 48 ∷ 68 ∷ 67 ∷ 56 ∷ 53 ∷ 66 ∷ 49 ∷ 49 ∷ []

b64_encode-accept_digest :
    (key : List ℕ) → b64_encode (accept_digest key) ≡ base64 (message_digest (key ++ key_guid))
b64_encode-accept_digest key =
    ap b64_encode (output-message_digest (key ++ key_guid))
    ∙ b64_encode-base64 (message_digest (key ++ key_guid)) (message_digest_below (key ++ key_guid))

-- A request whose first header with the name Sec-WebSocket-Key, in any case of its letters, stands at
-- `p` and has `n` spaces before its value, with room for the response of 129 characters: the handshake
-- succeeds, and the response ends with the Base64 (as RFC 4648 defines it) of the SHA-1 (as RFC 3174
-- defines it) of the 24 characters of the value followed by the constant of RFC 6455.
pub ws_handshake-accept_digest :
    (req_hdr : List ℕ) (hdr_len resp_max p n : ℕ)
    → p + 18 < hdr_len
    → n < length req_hdr
    → 130 ≤ resp_max
    → ((j : ℕ) → j < p → named_at req_hdr j ≡ false)
    → named_at req_hdr p ≡ true
    → ((j : ℕ) → j < n → byte_at req_hdr (p + 18 + j) ≡ 32)
    → byte_at req_hdr (p + 18 + n) ≢ 32
    → ws_handshake req_hdr hdr_len resp_max
      ≡ some (
          response_start
          ++ (base64 (message_digest (cells (byte_at req_hdr) (p + 18 + n) 24 ++ key_guid))
              ++ (13 ∷ 10 ∷ 13 ∷ 10 ∷ [])))
ws_handshake-accept_digest req_hdr hdr_len resp_max p n inside held room before here spaces stop =
    let found = find_key-first req_hdr (hdr_len - 18) 0 p (omega arith) (omega arith) before here in
    let skipped = skip_spaces_end req_hdr (length req_hdr) n (p + 18) held spaces stop in
    ws_handshake_found req_hdr hdr_len resp_max (p + 18) found
    ∙ (ap (λ d. ws_response d resp_max) (key_digest_lem req_hdr (p + 18) n skipped)
        ∙ ws_response-accept_digest (cells (byte_at req_hdr) (p + 18 + n) 24) resp_max room
        ∙ ap (λ t. some (response_start ++ (t ++ (13 ∷ 10 ∷ 13 ∷ 10 ∷ []))))
            (b64_encode-accept_digest (cells (byte_at req_hdr) (p + 18 + n) 24)))
