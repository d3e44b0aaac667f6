-- ===== src/Sha256/Reference.antt =====
-- The hash of a whole message: it is padded, cut into blocks, and the blocks are compressed in order.
use coin_line_emu.Base.{
  ℕ, zero, suc, ◌+◌, ◌-◌, ◌*◌, ◌/◌, ◌%◌, List, [], ◌∷◌, ◌++◌, length, take, drop, replicate,
}
use coin_line_emu.Sha256.{compress, initial_words, digest, length_bytes}

-- The zeros between the marker and the length of a message of `n` bytes.
abbrev pub pad_zeros : ℕ → ℕ
pad_zeros n = (119 - n % 64) % 64

unfoldable pub padding : ℕ → List ℕ
padding n = 0x80 ∷ (replicate (pad_zeros n) 0 ++ length_bytes (n * 8))

abbrev pub block_count : ℕ → ℕ
block_count n = (n + 8) / 64 + 1

unfoldable pub blocks : ℕ → List ℕ → List (List ℕ)
blocks zero message = []
blocks (suc n) message = take 64 message ∷ blocks n (drop 64 message)

unfoldable pub compress_all : List ℕ → List (List ℕ) → List ℕ
compress_all hs [] = hs
compress_all hs (block ∷ rest) = compress_all (compress hs block) rest

unfoldable pub reference_hash : List ℕ → List ℕ
reference_hash message =
    let n = length message in
    digest (compress_all initial_words (blocks (block_count n) (message ++ padding n)))
