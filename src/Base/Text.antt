-- ===== src/Base/Text.antt =====
-- Texts as lists of bytes, with what `std::string` and `std::isspace` offer.
use Prim.Native.Nat.{ℕ, suc, ◌+◌, ◌<◌}
use Prim.Native.Char.{code}
use Prim.Native.String.{String}
use mathlib.Core.Bool.{Bool, true, false, ◌&&◌, ◌||◌}
use mathlib.Core.Option.{Option, none, some}
use mathlib.Core.List.{List, [], ◌∷◌}
use coin_line_emu.Base.Tests.{leb, ◌==◌, if◌then◌else◌}
use coin_line_emu.Base.Lists.{drop, take, All}

infixl 5 ◌>>=◌
abbrev pub ◌>>=◌ {ℓ κ} : {A : Type ℓ} {B : Type κ} → Option A → (A → Option B) → Option B
none >>= f = none
some a >>= f = f a

abbrev pub is_empty {ℓ} : {A : Type ℓ} → List A → Bool
is_empty [] = true
is_empty (x ∷ xs) = false

-- The bytes of an ASCII literal.
unfoldable pub bytes : String → List ℕ
bytes String.[] = []
bytes (String.◌∷◌ c s) = code c ∷ bytes s

unfoldable pub text_eq : List ℕ → List ℕ → Bool
text_eq [] [] = true
text_eq (a ∷ s) (b ∷ t) = a == b && text_eq s t
text_eq _ _ = false

-- `std::isspace` in the C locale
unfoldable pub is_space : ℕ → Bool
is_space c = c == b' ' || (leb 9 c && leb c 13)

-- `std::isdigit`
unfoldable pub is_digit : ℕ → Bool
is_digit c = leb b'0' c && leb c b'9'

unfoldable pub starts_with : List ℕ → List ℕ → Bool
starts_with [] s = true
starts_with (k ∷ ks) [] = false
starts_with (k ∷ ks) (c ∷ s) = k == c && starts_with ks s

-- `find` of a character, and of a text, at position `pos` or later
unfoldable pub find_char : ℕ → List ℕ → Option ℕ
find_char k [] = none
find_char k (c ∷ s) =
    let later = find_char k s in if k == c then some 0 else later >>= λ i. some (suc i)

unfoldable pub find_text : List ℕ → List ℕ → Option ℕ
find_text key [] = if is_empty key then some 0 else none
find_text key (c ∷ s) =
    let later = find_text key s in
    if starts_with key (c ∷ s) then some 0 else later >>= λ i. some (suc i)

unfoldable pub find_char_from : ℕ → List ℕ → ℕ → Option ℕ
find_char_from k s pos = find_char k (drop pos s) >>= λ i. some (pos + i)

unfoldable pub find_text_from : List ℕ → List ℕ → ℕ → Option ℕ
find_text_from key s pos = find_text key (drop pos s) >>= λ i. some (pos + i)

-- `substr(pos, count)`
abbrev pub substr : List ℕ → ℕ → ℕ → List ℕ
substr s pos count = take count (drop pos s)

unfoldable pub skip_spaces : List ℕ → List ℕ
skip_spaces [] = []
skip_spaces (c ∷ s) = let rest = skip_spaces s in if is_space c then rest else c ∷ s

-- The bytes of a text are bytes.
abbrev pub IsText : List ℕ → Type 0
IsText s = All (λ c. c < 256) s

-- `c_str`: a C string ends at its first zero byte.
unfoldable pub c_str : List ℕ → List ℕ
c_str [] = []
c_str (c ∷ s) = let rest = c_str s in if c == 0 then [] else c ∷ rest

-- A character in front of the first of the parts.
abbrev cons_first : ℕ → List (List ℕ) → List (List ℕ)
cons_first c [] = (c ∷ []) ∷ []
cons_first c (p ∷ ps) = (c ∷ p) ∷ ps

-- The lines that `std::getline` delivers.
unfoldable pub lines : List ℕ → List (List ℕ)
lines [] = []
lines (c ∷ s) = let rest = lines s in if c == b'\n' then [] ∷ rest else cons_first c rest

abbrev ends_word : List ℕ → Bool
ends_word [] = true
ends_word (c ∷ s) = is_space c

-- The words that `>>` delivers.
unfoldable pub words : List ℕ → List (List ℕ)
words [] = []
words (c ∷ s) =
    let rest = words s in
    if is_space c then rest else if ends_word s then (c ∷ []) ∷ rest else cons_first c rest
