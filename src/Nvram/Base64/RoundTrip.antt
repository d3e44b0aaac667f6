-- ===== src/Nvram/Base64/RoundTrip.antt =====
-- Decoding what `base64_encode` writes.
use coin_line_emu.Base.Bits.{all_below, all_below_sound, bit_or_high_field}
use coin_line_emu.Base.{
  ℕ, suc, ◌+◌, ◌*◌, ◌/◌, ◌%◌, ◌^◌, ◌<◌, ◌≡◌, refl, ◌∙◌, ap, Bool, true, false, not, ◌&&◌, none,
  some, List, [], ◌∷◌, arith, bit_or, length, take, ◌==◌,
}
use coin_line_emu.Base.Text.{◌>>=◌, IsText, is_space}
use coin_line_emu.Nvram.Base64.{
  base64_value, base64_digits, join_digits, base64_bytes, base64_decode, base64_char, join_bytes,
  base64_encode,
}

-- The character of a digit is read as that digit, and is neither white space nor padding.
abbrev reads_back : ℕ → Bool
reads_back i =
    not (is_space (base64_char i))
    && not (base64_char i == b'=')
    && elim (base64_value (base64_char i)) [ none ↦ false | some v ↦ v == i ]

digit_table : (i : ℕ) → i < 64 → reads_back i ≡ true
unfolding all_below base64_char base64_value is_space
digit_table i h = all_below_sound 64 reads_back i refl h

digits-char :
    (i : ℕ) (s : List ℕ)
    → i < 64
    → base64_digits (base64_char i ∷ s) ≡ (base64_digits s >>= λ vs. some (i ∷ vs))
unfolding base64_digits
digits-char i s h = ground (arith, digit_table i h)

digits_empty : base64_digits [] ≡ some []
unfolding base64_digits
digits_empty = refl

digits-padding : (s : List ℕ) → base64_digits (b'=' ∷ s) ≡ some []
unfolding base64_digits is_space
digits-padding s = refl

join_bytes_lem : (x y z : ℕ) → y < 256 → z < 256 → join_bytes x y z ≡ x * 65536 + y * 256 + z
join_bytes_lem x y z hy hz =
    let high = bit_or_high_field 16 x (y * 2 ^ 8) (omega arith) in
    let low = bit_or_high_field 8 (x * 256 + y) z (omega arith) in
    let at : x * 2 ^ 16 + y * 2 ^ 8 ≡ (x * 256 + y) * 2 ^ 8 = omega arith in
    ap (λ (t : ℕ). bit_or t z) (high ∙ at) ∙ (low ∙ omega arith)

join_digits_lem :
    (a b c d : ℕ)
    → b < 64
    → c < 64
    → d < 64
    → join_digits a b c d ≡ a * 262144 + b * 4096 + c * 64 + d
join_digits_lem a b c d hb hc hd =
    let first : bit_or (a * 2 ^ 18) (b * 2 ^ 12) ≡ (a * 64 + b) * 64 * 2 ^ 6 =
      bit_or_high_field 18 a (b * 2 ^ 12) (omega arith) ∙ omega arith in
    let second : bit_or ((a * 64 + b) * 64 * 2 ^ 6) (c * 2 ^ 6) ≡ ((a * 64 + b) * 64 + c) * 2 ^ 6 =
      ap (λ (t : ℕ). bit_or t (c * 2 ^ 6)) (omega arith)
      ∙ (bit_or_high_field 12 (a * 64 + b) (c * 2 ^ 6) (omega arith) ∙ omega arith) in
    let third = bit_or_high_field 6 ((a * 64 + b) * 64 + c) d hd in
    ap (λ (t : ℕ). bit_or (bit_or t (c * 2 ^ 6)) d) first
    ∙ (ap (λ (t : ℕ). bit_or t d) second ∙ (third ∙ omega arith))

-- The four digits of three bytes are read back as these bytes.
bytes-group :
    (x y z : ℕ) (vs : List ℕ)
    → x < 256
    → y < 256
    → z < 256
    → let n = join_bytes x y z in
      base64_bytes (n / 262144 % 64 ∷ n / 4096 % 64 ∷ n / 64 % 64 ∷ n % 64 ∷ vs)
      ≡ x ∷ y ∷ z ∷ base64_bytes vs
unfolding base64_bytes
bytes-group x y z vs hx hy hz =
    let n = join_bytes x y z in
    let value = join_bytes_lem x y z hy hz in
    let joined =
      join_digits_lem (n / 262144 % 64) (n / 4096 % 64) (n / 64 % 64) (n % 64) (omega arith)
        (omega arith) (omega arith) in
    let m = join_digits (n / 262144 % 64) (n / 4096 % 64) (n / 64 % 64) (n % 64) in
    let first : m / 65536 % 256 ≡ x = omega (arith, value, joined) in
    let second : m / 256 % 256 ≡ y = omega (arith, value, joined) in
    let third : m % 256 ≡ z = omega (arith, value, joined) in ground (arith, first, second, third)

abbrev whole_groups : List ℕ → List ℕ
whole_groups (x ∷ y ∷ z ∷ bs) = x ∷ y ∷ z ∷ whole_groups bs
whole_groups _ = []

whole_groups-take : (bs : List ℕ) → whole_groups bs ≡ take (length bs / 3 * 3) bs
whole_groups-take [] = refl
whole_groups-take (x ∷ []) = refl
whole_groups-take (x ∷ y ∷ []) = refl
whole_groups-take (x ∷ y ∷ z ∷ bs) =
    let count : suc (suc (suc (length bs / 3 * 3))) ≡ suc (suc (suc (length bs))) / 3 * 3 =
      omega arith in
    ap (λ (rest : List ℕ). x ∷ y ∷ z ∷ rest) (whole_groups-take bs)
    ∙ ap (λ (n : ℕ). take n (x ∷ y ∷ z ∷ bs)) count

-- The digits of an encoding are read, and stand for the whole groups.
digits-encode :
    (bs : List ℕ)
    → IsText bs
    → (vs : List ℕ) × (base64_digits (base64_encode bs) ≡ some vs)
      × (base64_bytes vs ≡ whole_groups bs)
unfolding base64_encode base64_bytes
digits-encode [] h = ([], digits_empty, refl)
digits-encode (x ∷ []) h =
    let n = join_bytes x 0 0 in
    let a = n / 262144 % 64 in
    let b = n / 4096 % 64 in
    let last : List ℕ = base64_char b ∷ b'=' ∷ b'=' ∷ [] in
    let tail : List ℕ = b'=' ∷ b'=' ∷ [] in
    (
      a ∷ b ∷ [],
      ground (
        arith,
        digits-char a last (omega arith),
        digits-char b tail (omega arith),
        digits-padding (b'=' ∷ []),
      ),
      refl,
    )
digits-encode (x ∷ y ∷ []) h =
    let n = join_bytes x y 0 in
    let a = n / 262144 % 64 in
    let b = n / 4096 % 64 in
    let c = n / 64 % 64 in
    let s2 : List ℕ = b'=' ∷ [] in
    let s1 = base64_char c ∷ s2 in
    let s0 = base64_char b ∷ s1 in
    (
      a ∷ b ∷ c ∷ [],
      ground (
        arith,
        digits-char a s0 (omega arith),
        digits-char b s1 (omega arith),
        digits-char c s2 (omega arith),
        digits-padding [],
      ),
      refl,
    )
digits-encode (x ∷ y ∷ z ∷ bs) h =
    let (vs, read, grouped) = digits-encode bs h.1.1.1 in
    let n = join_bytes x y z in
    let a = n / 262144 % 64 in
    let b = n / 4096 % 64 in
    let c = n / 64 % 64 in
    let d = n % 64 in
    let s3 = base64_encode bs in
    let s2 = base64_char d ∷ s3 in
    let s1 = base64_char c ∷ s2 in
    let s0 = base64_char b ∷ s1 in
    (
      a ∷ b ∷ c ∷ d ∷ vs,
      ground (
        arith,
        digits-char a s0 (omega arith),
        digits-char b s1 (omega arith),
        digits-char c s2 (omega arith),
        digits-char d s3 (omega arith),
        read,
      ),
      bytes-group x y z vs h.0 h.1.0 h.1.1.0 ∙ ap (λ (rest : List ℕ). x ∷ y ∷ z ∷ rest) grouped,
    )

-- Decoding an encoded sequence of bytes gives back its whole groups of three: one or two bytes at
-- the end, for which the encoder writes padding, are lost.
pub base64_decode-base64_encode :
    (bs : List ℕ)
    → IsText bs
    → base64_decode (base64_encode bs) ≡ some (take (length bs / 3 * 3) bs)
unfolding base64_decode
base64_decode-base64_encode bs h =
    let (vs, read, grouped) = digits-encode bs h in
    ground (arith, read, grouped, whole_groups-take bs)
