-- ===== src/Web/Sha1/Standard/Digest.antt =====
-- The code's digest is that of RFC 3174.
use io_edge_hub_freertos.Common.{
  ℕ, zero, suc, ◌-◌, ◌*◌, ◌/◌, ◌%◌, ◌^◌, ◌≡◌, refl, ap, ap₂, ◌∙◌, arith, List, [], ◌∷◌, ◌++◌,
  length, take, drop, replicate, u8, ◌>>◌, AllBelow, AllBelow-append,
}
use io_edge_hub_freertos.Web.Sha1.{Words, sha1_block, initial, output, be32, be64}
use io_edge_hub_freertos.Web.Sha1.Padding.{padded, hash_blocks}
use io_edge_hub_freertos.Web.Sha1.Standard.{
  process_blocks, octets4, octets8, pad, digest_octets, message_digest,
}
use io_edge_hub_freertos.Web.Sha1.Standard.Block.{sha1_block-process_block}

hash_blocks-process_blocks :
    (n : ℕ) (h : Words) (text : List ℕ) → hash_blocks n h text ≡ process_blocks n h text
unfolding hash_blocks process_blocks
hash_blocks-process_blocks zero h text = refl
hash_blocks-process_blocks (suc n) h text =
    hash_blocks-process_blocks n (sha1_block h (take 64 text)) (drop 64 text)
    ∙ ap (λ v. process_blocks n v (drop 64 text)) (sha1_block-process_block h (take 64 text))

be64-octets8 : (v : ℕ) → be64 v ≡ octets8 v
unfolding be64 octets8
be64-octets8 v = ap₂ ◌∷◌ {x = u8 (v >> 56)} {y = v / 2 ^ 32 / 2 ^ 24 % 256} (omega arith) (
    ap₂ ◌∷◌ {x = u8 (v >> 48)} {y = v / 2 ^ 32 / 2 ^ 16 % 256} (omega arith) (
      ap₂ ◌∷◌ {x = u8 (v >> 40)} {y = v / 2 ^ 32 / 2 ^ 8 % 256} (omega arith) (
        ap (λ t. v / 2 ^ 32 % 256 ∷ v / 2 ^ 24 % 256 ∷ v / 2 ^ 16 % 256 ∷ v / 2 ^ 8 % 256 ∷ t ∷ [])
          {x = u8 (v >> 0)} {y = v % 256} (omega arith))))

padded-pad : (text : List ℕ) → padded text ≡ pad text
unfolding pad
padded-pad text =
    ap (λ t. text ++ ((0x80 ∷ replicate ((119 - length text % 64) % 64) 0) ++ t))
      (be64-octets8 (8 * length text))

-- The digest of the code is that of the RFC.
pub output-message_digest :
    (text : List ℕ)
    → output (hash_blocks (length (padded text) / 64) initial (padded text)) ≡ message_digest text
unfolding message_digest output be32
output-message_digest text =
    ap (λ t. output (hash_blocks (length t / 64) initial t)) (padded-pad text)
    ∙ ap output (hash_blocks-process_blocks (length (pad text) / 64) initial (pad text))

octets4_below : (v : ℕ) → AllBelow 256 (octets4 v)
unfolding octets4
octets4_below v = (omega arith, (omega arith, (omega arith, (omega arith, tt))))

digest_octets_below : (h : Words) → AllBelow 256 (digest_octets h)
digest_octets_below h =
    AllBelow-append 256 (octets4 h.a) (octets4 h.b ++ (octets4 h.c ++ (octets4 h.d ++ octets4 h.e)))
      (octets4_below h.a)
      (AllBelow-append 256 (octets4 h.b) (octets4 h.c ++ (octets4 h.d ++ octets4 h.e))
        (octets4_below h.b)
        (AllBelow-append 256 (octets4 h.c) (octets4 h.d ++ octets4 h.e) (octets4_below h.c) (
          AllBelow-append 256 (octets4 h.d) (octets4 h.e) (octets4_below h.d) (octets4_below h.e))))

pub message_digest_below : (text : List ℕ) → AllBelow 256 (message_digest text)
unfolding message_digest
message_digest_below text = digest_octets_below _
