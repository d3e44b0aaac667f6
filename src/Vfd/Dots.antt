-- ===== src/Vfd/Dots.antt =====
-- The dot plane: `set_dot`, `clear_all_dots` and `rebuild_cell_dots`.
use coin_line_emu.Base.{
  ℕ, zero, suc, ◌+◌, ◌-◌, ◌*◌, ◌/◌, ◌^◌, Bool, true, not, ◌&&◌, ◌||◌, List, [], ◌∷◌, leb, ◌==◌,
  if◌then◌else◌, get_or, set, length, bit_of, is_odd,
}
use coin_line_emu.Vfd.{Profile, Panel, zeros}

-- for (i = 0; i < n; ++i) s = body i s
unfoldable pub for_below {ℓ} : {S : Type ℓ} → ℕ → (ℕ → S → S) → S → S
for_below zero body s = s
for_below (suc n) body s = body n (for_below n body s)

abbrev pub dot_index : Profile → ℕ → ℕ → ℕ
dot_index p row col = row * (p.columns * 5) + col

unfoldable pub set_dot : Profile → ℕ → ℕ → Bool → List ℕ → List ℕ
set_dot p row col on dots =
    if leb (p.rows * 7) row || leb (p.columns * 5) col
    then dots
    else set dots (dot_index p row col) (bit_of on)

unfoldable pub clear_all_dots : Panel → Panel
clear_all_dots s = record s { dot_plane = zeros (length s.dot_plane) }

unfoldable pub draw_row : Profile → ℕ → ℕ → (ℕ → Bool) → ℕ → List ℕ → List ℕ
draw_row p y x on width dots = for_below width (λ cx ds. set_dot p y (x + cx) (on cx) ds) dots

unfoldable pub draw_block : Profile → ℕ → ℕ → (ℕ → ℕ → Bool) → ℕ → List ℕ → List ℕ
draw_block p y x on height dots =
    for_below height (λ ry ds. draw_row p (y + ry) x (on ry) 5 ds) dots

-- A dot of a cell that a mark lights when it is set.
pub record Mark : Type 0 where
  pub shown : Bool
  pub ry : ℕ
  pub cx : ℕ

unfoldable pub mark_dot : Profile → ℕ → ℕ → Mark → List ℕ → List ℕ
mark_dot p y x m dots = if m.shown then set_dot p (y + m.ry) (x + m.cx) true dots else dots

unfoldable pub mark_dots : Profile → ℕ → ℕ → List Mark → List ℕ → List ℕ
mark_dots p y x [] dots = dots
mark_dots p y x (m ∷ ms) dots = mark_dots p y x ms (mark_dot p y x m dots)

abbrev pub is_set : List ℕ → ℕ → Bool
is_set marks i = not (get_or marks i 0 == 0)

-- The five columns that a character has, its own where it was defined.
unfoldable pub glyph_of : (ℕ → List ℕ) → Panel → ℕ → List ℕ
glyph_of font s ch =
    if is_set s.user_glyph_valid ch then get_or s.user_glyph ch (zeros 5) else font ch

abbrev pub glyph_dot : List ℕ → ℕ → ℕ → Bool
glyph_dot g ry cx = is_odd (get_or g cx 0 / 2 ^ ry)

-- Whether the arrow of a cell shows: on the last row only.
abbrev pub has_arrow : Profile → Panel → ℕ → ℕ → Bool
has_arrow p s row i = is_set s.arrow_mark i && row == p.rows - 1

-- The marks of a cell, when the decimal point, the comma and the arrow are set.
abbrev pub cell_marks : Bool → Bool → Bool → List Mark
cell_marks decimal comma arrow =
    record { shown = decimal; ry = 6; cx = 4 }
    ∷ record { shown = comma; ry = 6; cx = 4 }
    ∷ record { shown = comma; ry = 5; cx = 3 }
    ∷ record { shown = arrow; ry = 3; cx = 4 }
    ∷ record { shown = arrow; ry = 2; cx = 3 }
    ∷ record { shown = arrow; ry = 4; cx = 3 }
    ∷ []

abbrev pub marks_of : Profile → Panel → ℕ → ℕ → List Mark
marks_of p s row i =
    cell_marks (is_set s.decimal_point i) (is_set s.comma_tail i) (has_arrow p s row i)

unfoldable pub cell_dots : (ℕ → List ℕ) → Profile → Panel → ℕ → ℕ → List ℕ → List ℕ
cell_dots font p s row col dots =
    let i = row * p.columns + col in
    let g = glyph_of font s (get_or s.cells i 0) in
    mark_dots p (row * 7) (col * 5) (marks_of p s row i)
      (draw_block p (row * 7) (col * 5) (glyph_dot g) 7 dots)

unfoldable pub rebuild_cell_dots : (ℕ → List ℕ) → Profile → Panel → ℕ → ℕ → List ℕ → List ℕ
rebuild_cell_dots font p s row col dots =
    if leb p.rows row || leb p.columns col then dots else cell_dots font p s row col dots

-- The cells of one row that satisfy a test, and those of all rows.
unfoldable pub rebuild_row :
    (ℕ → List ℕ) → Profile → Panel → (ℕ → ℕ → Bool) → ℕ → ℕ → List ℕ → List ℕ
rebuild_row font p s wanted row n dots =
    for_below n (λ col ds. if wanted row col then rebuild_cell_dots font p s row col ds else ds)
      dots

unfoldable pub rebuild_rows : (ℕ → List ℕ) → Profile → Panel → (ℕ → ℕ → Bool) → ℕ → List ℕ → List ℕ
rebuild_rows font p s wanted n dots =
    for_below n (λ row ds. rebuild_row font p s wanted row p.columns ds) dots

unfoldable pub rebuild_all : (ℕ → List ℕ) → Profile → Panel → Panel
rebuild_all font p s = record s {
  dot_plane = rebuild_rows font p s (λ row col. true) p.rows s.dot_plane;
}
