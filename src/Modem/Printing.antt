-- ===== src/Modem/Printing.antt =====
-- A fixture text of hexadecimal lines, printed, and what the readers make of it.
use coin_line_emu.Base.Bits.{all_below, all_below_sound}
use coin_line_emu.Base.{
  ℕ, ◌+◌, ◌/◌, ◌%◌, ◌<◌, ◌≡◌, refl, ap, Bool, true, false, not, ◌&&◌, Option, none, some, List, [],
  ◌∷◌, ◌++◌, map, arith, ltb, ◌==◌, if◌then◌else◌,
}
use coin_line_emu.Base.Text.{is_space, skip_spaces, lines, words, IsText}
use coin_line_emu.Modem.{hex_digit, parse_hex_byte, hex_bytes, parse_tokens, trim_back, trim_copy}

-- A byte as two lower-case digits, a line of bytes with spaces between them, and the lines' text.
unfoldable pub hex_char : ℕ → ℕ
hex_char n = if ltb n 10 then b'0' + n else 87 + n

unfoldable pub print_byte : ℕ → List ℕ
print_byte b = hex_char (b / 16) ∷ hex_char (b % 16) ∷ []

unfoldable pub print_line : List ℕ → List ℕ
print_line [] = []
print_line (b ∷ []) = print_byte b
print_line (b ∷ c ∷ bs) = print_byte b ++ b' ' ∷ print_line (c ∷ bs)

unfoldable pub print_text : List (List ℕ) → List ℕ
print_text [] = []
print_text (bs ∷ ls) = print_line bs ++ b'\n' ∷ print_text ls

-- A digit is no white space, no newline and no number sign.
abbrev pub plain : ℕ → Bool
plain c =
    not (is_space c)
    && not (c == b'\n')
    && not (c == b'#')
    && not (c == b' ')
    && not (c == b'\r')
    && not (c == b'\t')

pub hex_char-plain : (n : ℕ) → n < 16 → plain (hex_char n) ≡ true
unfolding all_below hex_char is_space
hex_char-plain n h = all_below_sound 16 (λ i. plain (hex_char i)) n refl h

abbrev option_is : Option ℕ → ℕ → Bool
option_is none b = false
option_is (some a) b = a == b

option_is→eq : (o : Option ℕ) (b : ℕ) → option_is o b ≡ true → o ≡ some b
option_is→eq none b h = ground arith
option_is→eq (some a) b h = let same : a ≡ b = ground (arith, h) in ap (λ (x : ℕ). some x) same

parse-print_byte : (b : ℕ) → b < 256 → parse_hex_byte (print_byte b) 0 0 ≡ some b
unfolding all_below parse_hex_byte print_byte hex_char hex_digit is_space
parse-print_byte b h =
    option_is→eq (parse_hex_byte (print_byte b) 0 0) b
      (all_below_sound 256 (λ i. option_is (parse_hex_byte (print_byte i) 0 0) i) b refl h)

pub words-print_line :
    (b : ℕ) (bs : List ℕ) → IsText (b ∷ bs) → words (print_line (b ∷ bs)) ≡ map print_byte (b ∷ bs)
unfolding words print_line print_byte is_space
words-print_line b [] h =
    ground
      (arith, hex_char-plain (b / 16) (omega (arith, h.0)), hex_char-plain (b % 16) (omega arith))
words-print_line b (c ∷ bs) h = ground (
  arith,
  hex_char-plain (b / 16) (omega (arith, h.0)),
  hex_char-plain (b % 16) (omega arith),
  words-print_line c bs h.1,
)

pub parse_tokens-print : (bs : List ℕ) → IsText bs → parse_tokens (map print_byte bs) ≡ hex_bytes bs
unfolding parse_tokens
parse_tokens-print [] h = refl
parse_tokens-print (b ∷ bs) h =
    let small : b % 256 ≡ b = omega (arith, h.0) in
    ground (arith, parse-print_byte b h.0, parse_tokens-print bs h.1, small)

trim_back-print_line :
    (b : ℕ) (bs : List ℕ) → IsText (b ∷ bs) → trim_back (print_line (b ∷ bs)) ≡ print_line (b ∷ bs)
unfolding trim_back print_line print_byte
trim_back-print_line b [] h =
    ground
      (arith, hex_char-plain (b / 16) (omega (arith, h.0)), hex_char-plain (b % 16) (omega arith))
trim_back-print_line b (c ∷ []) h = ground (
  arith,
  hex_char-plain (b / 16) (omega (arith, h.0)),
  hex_char-plain (b % 16) (omega arith),
  trim_back-print_line c [] h.1,
)
trim_back-print_line b (c ∷ d ∷ bs) h = ground (
  arith,
  hex_char-plain (b / 16) (omega (arith, h.0)),
  hex_char-plain (b % 16) (omega arith),
  trim_back-print_line c (d ∷ bs) h.1,
)

pub trim_copy-print_line :
    (b : ℕ) (bs : List ℕ) → IsText (b ∷ bs) → trim_copy (print_line (b ∷ bs)) ≡ print_line (b ∷ bs)
unfolding trim_copy skip_spaces print_line print_byte
trim_copy-print_line b [] h =
    ground (arith, trim_back-print_line b [] h, hex_char-plain (b / 16) (omega (arith, h.0)))
trim_copy-print_line b (c ∷ bs) h =
    ground (arith, trim_back-print_line b (c ∷ bs) h, hex_char-plain (b / 16) (omega (arith, h.0)))

pub lines-print_line :
    (b : ℕ) (bs rest : List ℕ)
    → IsText (b ∷ bs)
    → lines (print_line (b ∷ bs) ++ b'\n' ∷ rest) ≡ print_line (b ∷ bs) ∷ lines rest
unfolding lines print_line print_byte
lines-print_line b [] rest h =
    ground
      (arith, hex_char-plain (b / 16) (omega (arith, h.0)), hex_char-plain (b % 16) (omega arith))
lines-print_line b (c ∷ bs) rest h = ground (
  arith,
  hex_char-plain (b / 16) (omega (arith, h.0)),
  hex_char-plain (b % 16) (omega arith),
  lines-print_line c bs rest h.1,
)
