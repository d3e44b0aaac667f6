-- ===== src/Sha256.antt =====
-- The hash of the firmware check, src/mame/coinline/millennium_sha256.cpp. Padding has the proofs.
pub mod Reference
pub mod Padding
pub mod Blocks
pub mod Whole
pub mod Streaming
use coin_line_emu.Vfd.Snapshot.{low_digit}
use coin_line_emu.Base.{
  ℕ, zero, suc, ◌+◌, ◌-◌, ◌*◌, ◌/◌, ◌%◌, ◌^◌, min, bit_and, bit_or, bit_xor, Bool, true, false,
  List, [], ◌∷◌, ◌++◌, ltb, leb, ◌==◌, if◌then◌else◌, length, take, drop, get_or, set, replicate,
  u32, u64,
}

-- The file's static state: the hash words, the length so far, and the block that is filled.
pub record Hash : Type 0 where
  pub h : List ℕ
  pub total_len : ℕ
  pub buf : List ℕ
  pub buflen : ℕ

unfoldable pub rotr : ℕ → ℕ → ℕ
rotr x n = bit_or (x / 2 ^ n) (u32 (x * 2 ^ (32 - n)))

-- The complement of 32 bits.
abbrev pub complement : ℕ → ℕ
complement x = 0xffffffff - x

unfoldable pub ch : ℕ → ℕ → ℕ → ℕ
ch x y z = bit_xor (bit_and x y) (bit_and (complement x) z)

unfoldable pub maj : ℕ → ℕ → ℕ → ℕ
maj x y z = bit_xor (bit_xor (bit_and x y) (bit_and x z)) (bit_and y z)

unfoldable pub big_sigma0 : ℕ → ℕ
big_sigma0 x = bit_xor (bit_xor (rotr x 2) (rotr x 13)) (rotr x 22)

unfoldable pub big_sigma1 : ℕ → ℕ
big_sigma1 x = bit_xor (bit_xor (rotr x 6) (rotr x 11)) (rotr x 25)

unfoldable pub small_sigma0 : ℕ → ℕ
small_sigma0 x = bit_xor (bit_xor (rotr x 7) (rotr x 18)) (x / 2 ^ 3)

unfoldable pub small_sigma1 : ℕ → ℕ
small_sigma1 x = bit_xor (bit_xor (rotr x 17) (rotr x 19)) (x / 2 ^ 10)

abbrev pub round_constants : List ℕ
round_constants =
    0x428a2f98 ∷ 0x71374491 ∷ 0xb5c0fbcf ∷ 0xe9b5dba5 ∷ 0x3956c25b ∷ 0x59f111f1 ∷ 0x923f82a4
    ∷ 0xab1c5ed5 ∷ 0xd807aa98 ∷ 0x12835b01 ∷ 0x243185be ∷ 0x550c7dc3 ∷ 0x72be5d74 ∷ 0x80deb1fe
    ∷ 0x9bdc06a7 ∷ 0xc19bf174 ∷ 0xe49b69c1 ∷ 0xefbe4786 ∷ 0x0fc19dc6 ∷ 0x240ca1cc ∷ 0x2de92c6f
    ∷ 0x4a7484aa ∷ 0x5cb0a9dc ∷ 0x76f988da ∷ 0x983e5152 ∷ 0xa831c66d ∷ 0xb00327c8 ∷ 0xbf597fc7
    ∷ 0xc6e00bf3 ∷ 0xd5a79147 ∷ 0x06ca6351 ∷ 0x14292967 ∷ 0x27b70a85 ∷ 0x2e1b2138 ∷ 0x4d2c6dfc
    ∷ 0x53380d13 ∷ 0x650a7354 ∷ 0x766a0abb ∷ 0x81c2c92e ∷ 0x92722c85 ∷ 0xa2bfe8a1 ∷ 0xa81a664b
    ∷ 0xc24b8b70 ∷ 0xc76c51a3 ∷ 0xd192e819 ∷ 0xd6990624 ∷ 0xf40e3585 ∷ 0x106aa070 ∷ 0x19a4c116
    ∷ 0x1e376c08 ∷ 0x2748774c ∷ 0x34b0bcb5 ∷ 0x391c0cb3 ∷ 0x4ed8aa4a ∷ 0x5b9cca4f ∷ 0x682e6ff3
    ∷ 0x748f82ee ∷ 0x78a5636f ∷ 0x84c87814 ∷ 0x8cc70208 ∷ 0x90befffa ∷ 0xa4506ceb ∷ 0xbef9a3f7
    ∷ 0xc67178f2 ∷ []

-- The first 16 words of the schedule, in the order of the block.
unfoldable pub block_words : ℕ → List ℕ → List ℕ
block_words zero block = []
block_words (suc n) block =
    bit_or
      (bit_or (bit_or (get_or block 0 0 * 2 ^ 24) (get_or block 1 0 * 2 ^ 16))
        (get_or block 2 0 * 2 ^ 8))
      (get_or block 3 0)
    ∷ block_words n (drop 4 block)

-- The other words, from `i` on.
unfoldable pub extend_words : ℕ → ℕ → List ℕ → List ℕ
extend_words zero i w = w
extend_words (suc n) i w =
    let next = u32 (
      small_sigma1 (get_or w (i - 2) 0)
      + get_or w (i - 7) 0
      + small_sigma0 (get_or w (i - 15) 0)
      + get_or w (i - 16) 0) in
    extend_words n (i + 1) (w ++ (next ∷ []))

-- The eight working variables.
pub record Working : Type 0 where
  pub a : ℕ
  pub b : ℕ
  pub c : ℕ
  pub d : ℕ
  pub e : ℕ
  pub f : ℕ
  pub g : ℕ
  pub h : ℕ

unfoldable pub round : ℕ → ℕ → Working → Working
round k w s =
    let t1 = u32 (s.h + big_sigma1 s.e + ch s.e s.f s.g + k + w) in
    let t2 = u32 (big_sigma0 s.a + maj s.a s.b s.c) in
    record {
      a = u32 (t1 + t2);
      b = s.a;
      c = s.b;
      d = s.c;
      e = u32 (s.d + t1);
      f = s.e;
      g = s.f;
      h = s.g;
    }

unfoldable pub rounds : List ℕ → List ℕ → Working → Working
rounds [] ws s = s
rounds (k ∷ ks) [] s = s
rounds (k ∷ ks) (w ∷ ws) s = rounds ks ws (round k w s)

-- The hash words after a block.
unfoldable pub compress : List ℕ → List ℕ → List ℕ
compress hs block =
    let word = λ (i : ℕ). get_or hs i 0 in
    let w = extend_words 48 16 (block_words 16 block) in
    let s = rounds round_constants w (record {
      a = word 0;
      b = word 1;
      c = word 2;
      d = word 3;
      e = word 4;
      f = word 5;
      g = word 6;
      h = word 7;
    }) in
    u32 (word 0 + s.a)
    ∷ u32 (word 1 + s.b)
    ∷ u32 (word 2 + s.c)
    ∷ u32 (word 3 + s.d)
    ∷ u32 (word 4 + s.e)
    ∷ u32 (word 5 + s.f)
    ∷ u32 (word 6 + s.g)
    ∷ u32 (word 7 + s.h)
    ∷ []

unfoldable pub transform : Hash → Hash
transform s = record s { h = compress s.h s.buf }

abbrev pub initial_words : List ℕ
initial_words =
    0x6a09e667 ∷ 0xbb67ae85 ∷ 0x3c6ef372 ∷ 0xa54ff53a ∷ 0x510e527f ∷ 0x9b05688c ∷ 0x1f83d9ab
    ∷ 0x5be0cd19 ∷ []

unfoldable pub reset : Hash
reset = record { h = initial_words; total_len = 0; buf = replicate 64 0; buflen = 0 }

-- `memcpy` into a buffer.
unfoldable pub copy_at : List ℕ → ℕ → List ℕ → List ℕ
copy_at buf pos [] = buf
copy_at buf pos (b ∷ bs) = copy_at (set buf pos b) (pos + 1) bs

-- The block is full.
unfoldable pub flush : Hash → Hash
flush s = if s.buflen == 64 then record (transform s) { buflen = 0 } else s

-- The loop of `update`, with a bound on its turns. A length is cut to 32 bits.
unfoldable pub update_loop : ℕ → List ℕ → Hash → Hash
update_loop zero bytes s = s
update_loop (suc fuel) [] s = s
update_loop (suc fuel) (b ∷ bytes) s =
    let data_bytes = b ∷ bytes in
    let count = min (64 - s.buflen) (u32 (length data_bytes)) in
    update_loop fuel (drop count data_bytes) (
      flush (record s {
        buf = copy_at s.buf s.buflen (take count data_bytes);
        buflen = s.buflen + count;
      }))

-- Each turn takes a byte at least, for fewer than 2 ^ 32 of them.
unfoldable pub update : List ℕ → Hash → Hash
update bytes s =
    update_loop (length bytes) bytes (record s { total_len = u64 (s.total_len + length bytes) })

-- The eight bytes of a length, the highest first.
abbrev pub length_bytes : ℕ → List ℕ
length_bytes n =
    n / 2 ^ 56 % 256
    ∷ n / 2 ^ 48 % 256
    ∷ n / 2 ^ 40 % 256
    ∷ n / 2 ^ 32 % 256
    ∷ n / 2 ^ 24 % 256
    ∷ n / 2 ^ 16 % 256
    ∷ n / 2 ^ 8 % 256
    ∷ n % 256
    ∷ []

-- Zeros from `i` up to an end.
abbrev pub zero_up_to : ℕ → ℕ → List ℕ → List ℕ
zero_up_to i end buf = copy_at buf i (replicate (end - i) 0)

unfoldable pub word_bytes : ℕ → List ℕ
word_bytes w = w / 2 ^ 24 % 256 ∷ w / 2 ^ 16 % 256 ∷ w / 2 ^ 8 % 256 ∷ w % 256 ∷ []

unfoldable pub digest : List ℕ → List ℕ
digest [] = []
digest (w ∷ ws) = word_bytes w ++ digest ws

-- The last block, from the position behind its last byte.
unfoldable pub last_block : ℕ → ℕ → Hash → Hash
last_block bitlen i s =
    transform (record s { buf = copy_at (zero_up_to i 56 s.buf) 56 (length_bytes bitlen) })

-- The state after the padding.
unfoldable pub padded_state : Hash → Hash
padded_state s =
    let bitlen = u64 (s.total_len * 8) in
    let i = s.buflen + 1 in
    let marked = record s { buf = set s.buf s.buflen 0x80 } in
    if ltb 56 i
    then last_block bitlen 0 (transform (record marked { buf = zero_up_to i 64 marked.buf }))
    else last_block bitlen i marked

unfoldable pub finish : Hash → Hash × List ℕ
finish s = let t = padded_state s in (t, digest t.h)

-- A byte as two hexadecimal digits, and all of them.
unfoldable pub hex_digits : List ℕ → List ℕ
hex_digits [] = []
hex_digits (b ∷ bs) = low_digit (b / 16) ∷ low_digit (b % 16) ∷ hex_digits bs

unfoldable pub sha256_hex : List ℕ → List ℕ
sha256_hex bytes = hex_digits (finish (update bytes reset)).1
