-- ===== src/Vfd/Fixture.antt =====
-- Reading a snapshot back: the rows of its text, and their comparison with the display.
use coin_line_emu.Base.Bits.{all_below}
use coin_line_emu.Base.{
  ℕ, ◌+◌, ◌*◌, Bool, true, false, ◌&&◌, ◌||◌, Option, none, some, List, [], ◌∷◌, ◌++◌, ◌==◌,
  if◌then◌else◌, get_or, length, drop,
}
use coin_line_emu.Base.Text.{◌>>=◌, bytes, find_text, find_char_from}
use coin_line_emu.Vfd.{Vfd}

abbrev pub is_blank : ℕ → Bool
is_blank c = c == b' ' || c == b'\t' || c == b'\n' || c == b'\r'

-- Where the reader of the rows is: before a string, in one, or after one.
pub data Place : Type 0 where
  before : Place
  within : List ℕ → Place
  after : Place

-- The rows, if there is one.
abbrev pub finished : List (List ℕ) → Option (List (List ℕ))
finished [] = none
finished (row ∷ rows) = some (row ∷ rows)

-- What is before a string: the end of the list, or the quote of the string.
unfoldable pub starts : ℕ → Option (List (List ℕ)) → List (List ℕ) → Option (List (List ℕ))
starts c string rows = if c == b']' then finished rows else if c == b'"' then string else none

-- The loop of `parse_json_text_rows`, on the text behind the bracket.
unfoldable pub read_rows : Place → List (List ℕ) → List ℕ → Option (List (List ℕ))
read_rows Place.before rows [] = finished rows
read_rows Place.before rows (c ∷ s) = elim (is_blank c) [
  | true ↦ read_rows Place.before rows s
  | false ↦ starts c (read_rows (Place.within []) rows s) rows
]
read_rows (Place.within cell) rows [] = none
read_rows (Place.within cell) rows (c ∷ []) =
    if c == b'"' then finished (rows ++ (cell ∷ [])) else none
read_rows (Place.within cell) rows (c ∷ d ∷ s) = elim (c == b'\\') [
  | true ↦ read_rows (Place.within (cell ++ (d ∷ []))) rows s
  | false ↦ elim (c == b'"') [
    | true ↦ read_rows Place.after (rows ++ (cell ∷ [])) (d ∷ s)
    | false ↦ read_rows (Place.within (cell ++ (c ∷ []))) rows (d ∷ s)
  ]
]
read_rows Place.after rows [] = finished rows
read_rows Place.after rows (c ∷ s) = elim (is_blank c) [
  | true ↦ read_rows Place.after rows s
  | false ↦ elim (c == b',') [
    | true ↦ read_rows Place.before rows s
    | false ↦ starts c (read_rows (Place.within []) rows s) rows
  ]
]

unfoldable pub parse_json_text_rows : List ℕ → Option (List (List ℕ))
parse_json_text_rows json = do
  k ← find_text (bytes "\"text\"") json
  lb ← find_char_from b'[' json k
  read_rows Place.before [] (drop (lb + 1) json)

-- Whether a row of a reference has the characters of the display.
unfoldable pub row_matches : Vfd → List (List ℕ) → ℕ → Bool
row_matches v ref row =
    let p = v.profile in
    let line = get_or ref row [] in
    length line == p.columns
    && all_below p.columns
        (λ col. get_or v.panel.cells (row * p.columns + col) 0 == get_or line col 0)

unfoldable pub rows_match : Vfd → Option (List (List ℕ)) → Bool
rows_match v none = false
rows_match v (some ref) =
    length ref == v.profile.rows && all_below v.profile.rows (λ row. row_matches v ref row)

unfoldable pub text_rows_match_fixture_json : List ℕ → Vfd → Bool
text_rows_match_fixture_json json v = rows_match v (parse_json_text_rows json)
