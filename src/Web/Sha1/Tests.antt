-- ===== src/Web/Sha1/Tests.antt =====
-- The digest of "abc".
use io_edge_hub_freertos.Common.{ℕ, ◌*◌, ◌/◌, ◌≡◌, refl, arith, List, [], ◌∷◌, length}
use io_edge_hub_freertos.Web.Sha1.{
  sha1, sha1_init, sha1_update, sha1_final, sha1_block, pad_loop, initial, output,
}
use io_edge_hub_freertos.Web.Sha1.Padding.{
  start, padded, hash_blocks, pad_loop_ends, sha1-hash_blocks,
}

sha1_abc :
    sha1 (97 ∷ 98 ∷ 99 ∷ [])
    ≡ 0xA9 ∷ 0x99 ∷ 0x3E ∷ 0x36 ∷ 0x47 ∷ 0x06 ∷ 0x81 ∷ 0x6A ∷ 0xBA ∷ 0x3E ∷ 0x25 ∷ 0x71 ∷ 0x78
      ∷ 0x50 ∷ 0xC2 ∷ 0x6C ∷ 0x9C ∷ 0xD0 ∷ 0xD8 ∷ 0x9D ∷ []
unfolding sha1_init sha1_update sha1_final sha1_block
sha1_abc = refl

abbrev abc : List ℕ
abc = 97 ∷ 98 ∷ 99 ∷ []

sha1-hash_blocks_example :
    (length (padded abc) ≡ 64 * (length (padded abc) / 64))
    × (sha1 abc ≡ output (hash_blocks (length (padded abc) / 64) initial (padded abc)))
sha1-hash_blocks_example = sha1-hash_blocks abc (omega arith)

pad_loop_ends_example :
    (length (pad_loop 100 start).buf ≡ 56) × (pad_loop 100 start ≡ pad_loop 64 start)
pad_loop_ends_example = pad_loop_ends 100 start (omega arith) (omega arith) (omega arith)
