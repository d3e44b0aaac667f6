-- ===== src/Vfd/Snapshot.antt =====
-- The texts of the display: its snapshot, its first row, and the comparison with a fixture.
use coin_line_emu.Base.{
  ℕ, zero, suc, ◌+◌, ◌*◌, ◌/◌, ◌%◌, ◌||◌, List, [], ◌∷◌, ◌++◌, ltb, ◌==◌, if◌then◌else◌, get_or,
}
use coin_line_emu.Base.Text.{bytes}
use coin_line_emu.Nvram.Envelope.{decimal, upper_digit}
use coin_line_emu.Vfd.{Profile, Panel, Vfd}

unfoldable pub low_digit : ℕ → ℕ
low_digit n = if ltb n 10 then b'0' + n else 87 + n

-- A character in a JSON string; control characters have four hexadecimal digits.
unfoldable pub escape_char : ℕ → List ℕ
escape_char c =
    if c == b'\\' || c == b'"'
    then b'\\' ∷ c ∷ []
    else if ltb c 0x20
    then b'\\' ∷ b'u' ∷ b'0' ∷ b'0' ∷ low_digit (c / 16) ∷ low_digit (c % 16) ∷ []
    else c ∷ []

unfoldable pub json_escape : List ℕ → List ℕ
json_escape [] = []
json_escape (c ∷ s) = escape_char c ++ json_escape s

abbrev pub hex_byte : ℕ → List ℕ
hex_byte b = b'0' ∷ b'x' ∷ upper_digit (b / 16) ∷ upper_digit (b % 16) ∷ []

unfoldable pub raw_hex_spaced : List ℕ → List ℕ
raw_hex_spaced [] = []
raw_hex_spaced (b ∷ []) = hex_byte b
raw_hex_spaced (b ∷ c ∷ raw) = hex_byte b ++ (b' ' ∷ raw_hex_spaced (c ∷ raw))

-- The values of a function at `from`, …, `from + n - 1`.
unfoldable pub tabulate {ℓ} : {A : Type ℓ} → ℕ → ℕ → (ℕ → A) → List A
tabulate from zero f = []
tabulate from (suc n) f = f from ∷ tabulate (from + 1) n f

abbrev pub text_row : Profile → Panel → ℕ → List ℕ
text_row p s row = tabulate 0 p.columns (λ col. get_or s.cells (row * p.columns + col) 0)

unfoldable pub text_rows : Profile → Panel → List (List ℕ)
text_rows p s = tabulate 0 p.rows (λ row. text_row p s row)

abbrev pub dot_char : ℕ → ℕ
dot_char d = if d == 0 then b'0' else b'1'

unfoldable pub dot_lines : Profile → Panel → List (List ℕ)
dot_lines p s = tabulate 0 (p.rows * 7) (λ row.
    tabulate 0 (p.columns * 5)
      (λ col. dot_char (get_or s.dot_plane (row * (p.columns * 5) + col) 0)))

-- Strings in quotes with commas between them.
unfoldable pub quoted_list : List (List ℕ) → List ℕ
quoted_list [] = []
quoted_list (line ∷ []) = b'"' ∷ line ++ (b'"' ∷ [])
quoted_list (line ∷ next ∷ rest) = b'"' ∷ line ++ (b'"' ∷ b',' ∷ quoted_list (next ∷ rest))

unfoldable pub escaped_lines : List (List ℕ) → List (List ℕ)
escaped_lines [] = []
escaped_lines (line ∷ rest) = json_escape line ∷ escaped_lines rest

unfoldable pub joined : List (List ℕ) → List ℕ
joined [] = []
joined (piece ∷ pieces) = piece ++ joined pieces

-- The snapshot up to the key of the text, and behind the bracket of the text.
unfoldable pub snapshot_front : Profile → List ℕ
snapshot_front p = joined (
    bytes "{\"variant\":\""
    ∷ json_escape p.variant
    ∷ bytes "\",\"rows\":"
    ∷ decimal p.rows
    ∷ bytes ",\"columns\":"
    ∷ decimal p.columns
    ∷ bytes ",\"dot_rows\":"
    ∷ decimal (p.rows * 7)
    ∷ bytes ",\"dot_cols\":"
    ∷ decimal (p.columns * 5)
    ∷ bytes ","
    ∷ [])

unfoldable pub snapshot_back : Vfd → List ℕ
snapshot_back v = joined (
    bytes ",\"dot_plane\":["
    ∷ quoted_list (dot_lines v.profile v.panel)
    ∷ bytes "],\"raw\":\""
    ∷ json_escape (raw_hex_spaced v.raw_log)
    ∷ bytes "\"}\n"
    ∷ [])

unfoldable pub export_snapshot_json : Vfd → List ℕ
export_snapshot_json v =
    snapshot_front v.profile
    ++ (bytes "\"text\":["
        ++ (quoted_list (escaped_lines (text_rows v.profile v.panel)) ++ (b']' ∷ snapshot_back v)))

unfoldable pub first_text_row : Vfd → List ℕ
first_text_row v =
    if ltb v.profile.rows 1 || ltb v.profile.columns 1
    then []
    else tabulate 0 v.profile.columns (λ col. get_or v.panel.cells col 0)
