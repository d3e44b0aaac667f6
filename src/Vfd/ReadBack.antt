-- ===== src/Vfd/ReadBack.antt =====
-- The rows of a snapshot, read back.
use mathlib.Core.List.{append_assoc, append-nil}
use coin_line_emu.Base.{
  ℕ, ◌≡◌, ◌∙◌, ap, sym, refl, false, ◌||◌, List, [], ◌∷◌, ◌++◌, arith, ltb, ◌==◌, All, if_cases,
}
use coin_line_emu.Vfd.Snapshot.{escape_char, json_escape, quoted_list, escaped_lines}
use coin_line_emu.Vfd.Fixture.{Place, read_rows, finished, starts}
use coin_line_emu.Vfd.Text.{IsPrintable}

-- A character that is neither a backslash nor a quote.
read_plain :
    (cell : List ℕ) (rows : List (List ℕ)) (c : ℕ) (s : List ℕ)
    → (c == b'\\') ≡ false
    → (c == b'"') ≡ false
    → read_rows (Place.within cell) rows (c ∷ s)
      ≡ read_rows (Place.within (cell ++ (c ∷ []))) rows s
unfolding read_rows
read_plain cell rows c [] h1 h2 = rw h2 refl
read_plain cell rows c (d ∷ s) h1 h2 = ground (arith, h1, h2)

read_close :
    (cell : List ℕ) (rows : List (List ℕ)) (s : List ℕ)
    → read_rows (Place.within cell) rows (b'"' ∷ s) ≡ read_rows Place.after (rows ++ (cell ∷ [])) s
unfolding read_rows
read_close cell rows [] = refl
read_close cell rows (d ∷ s) = refl

read_escaped :
    (cell : List ℕ) (rows : List (List ℕ)) (c : ℕ) (s : List ℕ)
    → read_rows (Place.within cell) rows (b'\\' ∷ c ∷ s)
      ≡ read_rows (Place.within (cell ++ (c ∷ []))) rows s
unfolding read_rows
read_escaped cell rows c s = refl

-- An escaped printable character is read back as itself.
read_char :
    (cell : List ℕ) (rows : List (List ℕ)) (c : ℕ) (s : List ℕ)
    → IsPrintable c
    → read_rows (Place.within cell) rows (escape_char c ++ s)
      ≡ read_rows (Place.within (cell ++ (c ∷ []))) rows s
unfolding escape_char
read_char cell rows c s printable =
    let Reads = λ (e : List ℕ).
      read_rows (Place.within cell) rows (e ++ s)
      ≡ read_rows (Place.within (cell ++ (c ∷ []))) rows s in
    if_cases Reads (c == b'\\' || c == b'"') (b'\\' ∷ c ∷ []) _ (λ _. read_escaped cell rows c s)
      (λ special.
        if_cases Reads (ltb c 0x20) _ (c ∷ [])
          (λ control. absurd (ground (arith, printable, control)))
          (λ _. read_plain cell rows c s (ground (arith, special)) (ground (arith, special))))

read_line :
    (line cell : List ℕ) (rows : List (List ℕ)) (s : List ℕ)
    → All IsPrintable line
    → read_rows (Place.within cell) rows (json_escape line ++ (b'"' ∷ s))
      ≡ read_rows Place.after (rows ++ ((cell ++ line) ∷ [])) s
unfolding json_escape
read_line [] cell rows s printable =
    read_close cell rows s
    ∙ ap (λ (t : List ℕ). read_rows Place.after (rows ++ (t ∷ [])) s) (sym (append-nil cell))
read_line (c ∷ line) cell rows s printable =
    ap (λ (t : List ℕ). read_rows (Place.within cell) rows t)
      (append_assoc (escape_char c) (json_escape line) (b'"' ∷ s))
    ∙ (read_char cell rows c (json_escape line ++ (b'"' ∷ s)) printable.0
        ∙ (read_line line (cell ++ (c ∷ [])) rows s printable.1
            ∙ ap (λ (t : List ℕ). read_rows Place.after (rows ++ (t ∷ [])) s)
                (append_assoc cell (c ∷ []) line)))

-- The rows of a list that ends are those that were written.
pub read_rows-quoted_list :
    (line : List ℕ) (lines rows : List (List ℕ)) (s : List ℕ)
    → All (λ l. All IsPrintable l) (line ∷ lines)
    → read_rows Place.before rows (quoted_list (escaped_lines (line ∷ lines)) ++ (b']' ∷ s))
      ≡ finished (rows ++ (line ∷ lines))
unfolding read_rows quoted_list escaped_lines starts
read_rows-quoted_list line [] rows s printable =
    ap (λ (t : List ℕ). read_rows (Place.within []) rows t)
      (append_assoc (json_escape line) (b'"' ∷ []) (b']' ∷ s))
    ∙ read_line line [] rows (b']' ∷ s) printable.0
read_rows-quoted_list line (next ∷ lines) rows s printable =
    let more = quoted_list (escaped_lines (next ∷ lines)) in
    ap (λ (t : List ℕ). read_rows (Place.within []) rows t)
      (append_assoc (json_escape line) (b'"' ∷ b',' ∷ more) (b']' ∷ s))
    ∙ (read_line line [] rows (b',' ∷ (more ++ (b']' ∷ s))) printable.0
        ∙ (read_rows-quoted_list next lines (rows ++ (line ∷ [])) s printable.1
            ∙ ap (λ (t : List (List ℕ)). finished t)
                (append_assoc rows (line ∷ []) (next ∷ lines))))
