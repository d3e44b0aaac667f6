-- ===== src/Nvram/Base64.antt =====
-- The base64 codec of millennium_nvram_model.cpp.
pub mod RoundTrip
use coin_line_emu.Base.Bits.{all_below, all_below_sound, bit_or_high_field}
use coin_line_emu.Base.{
  ℕ, suc, ◌+◌, ◌-◌, ◌*◌, ◌/◌, ◌%◌, ◌^◌, ◌<◌, ◌≡◌, refl, ◌∙◌, ap, Bool, true, false, not, ◌&&◌,
  Option, none, some, List, [], ◌∷◌, arith, bit_or, length, get_or, take, leb, ◌==◌, if◌then◌else◌,
}
use coin_line_emu.Base.Text.{◌>>=◌, IsText, bytes, is_space}

unfoldable pub base64_value : ℕ → Option ℕ
base64_value c =
    if leb b'A' c && leb c b'Z'
    then some (c - b'A')
    else if leb b'a' c && leb c b'z'
    then some (c - b'a' + 26)
    else if leb b'0' c && leb c b'9'
    then some (c - b'0' + 52)
    else if c == b'+'
    then some 62
    else if c == b'/'
    then some 63
    else none

-- The first loop of `base64_decode`: the values of the digits in front of the padding.
unfoldable pub base64_digits : List ℕ → Option (List ℕ)
base64_digits [] = some []
base64_digits (c ∷ s) =
    let rest = base64_digits s in
    if is_space c
    then rest
    else if c == b'='
    then some []
    else base64_value c >>= λ v. rest >>= λ vs. some (v ∷ vs)

-- The 24 bits of four digits.
abbrev pub join_digits : ℕ → ℕ → ℕ → ℕ → ℕ
join_digits a b c d = bit_or (bit_or (bit_or (a * 2 ^ 18) (b * 2 ^ 12)) (c * 2 ^ 6)) d

-- The second loop: three bytes for every four digits; what is left over is dropped.
unfoldable pub base64_bytes : List ℕ → List ℕ
base64_bytes (a ∷ b ∷ c ∷ d ∷ vs) =
    let n = join_digits a b c d in n / 65536 % 256 ∷ n / 256 % 256 ∷ n % 256 ∷ base64_bytes vs
base64_bytes _ = []

unfoldable pub base64_decode : List ℕ → Option (List ℕ)
base64_decode text = base64_digits text >>= λ vs. some (base64_bytes vs)

-- `tbl[i]`
unfoldable pub base64_char : ℕ → ℕ
unfolding bytes
base64_char i =
    get_or (bytes "ABCDEFGHIJKLMNOPQRSTUVWXYZabcdefghijklmnopqrstuvwxyz0123456789+/") i 0

-- The 24 bits of three bytes.
abbrev pub join_bytes : ℕ → ℕ → ℕ → ℕ
join_bytes x y z = bit_or (bit_or (x * 2 ^ 16) (y * 2 ^ 8)) z

unfoldable pub base64_encode : List ℕ → List ℕ
base64_encode [] = []
base64_encode (x ∷ []) =
    let n = join_bytes x 0 0 in
    base64_char (n / 262144 % 64) ∷ base64_char (n / 4096 % 64) ∷ b'=' ∷ b'=' ∷ []
base64_encode (x ∷ y ∷ []) =
    let n = join_bytes x y 0 in
    base64_char (n / 262144 % 64)
    ∷ base64_char (n / 4096 % 64)
    ∷ base64_char (n / 64 % 64)
    ∷ b'='
    ∷ []
base64_encode (x ∷ y ∷ z ∷ bs) =
    let n = join_bytes x y z in
    base64_char (n / 262144 % 64)
    ∷ base64_char (n / 4096 % 64)
    ∷ base64_char (n / 64 % 64)
    ∷ base64_char (n % 64)
    ∷ base64_encode bs
