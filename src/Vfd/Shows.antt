-- ===== src/Vfd/Shows.antt =====
-- The dots against the characters and the marks, under each change of the panel.
use coin_line_emu.Base.{
  ℕ, zero, suc, ◌+◌, ◌*◌, ◌<◌, ◌≡◌, ◌∙◌, ap, refl, Bool, true, List, arith, ltb, get_or, replicate,
  length, both_branches, bit_of,
}
use coin_line_emu.Vfd.{Profile, Panel, blank_panel, zeros}
use coin_line_emu.Vfd.Dots.{dot_index, clear_all_dots, rebuild_all, glyph_of, glyph_dot}
use coin_line_emu.Vfd.Read.{plane_size, dot, index_below}
use coin_line_emu.Vfd.Agree.{cell_at, lit, ShowsCell}
use coin_line_emu.Vfd.Rebuild.{rebuild_rows-draws}
use coin_line_emu.Vfd.Grid.{IsGrid, move_to-IsGrid, cell_count}
use coin_line_emu.Vfd.Motion.{cleared, move_to, scroll_up}
use coin_line_emu.Vfd.Glyph.{advance, retreat}

-- Each dot of the plane is the dot of the glyph in its cell, or of a mark there.
unfoldable pub Shows : (ℕ → List ℕ) → Profile → Panel → Type 0
Shows font p s =
    (row col : ℕ) → row < p.rows → col < p.columns → ShowsCell font p s s.dot_plane row col

-- The characters, the glyphs and the marks of a cell are those of another panel.
pub record SameCell (font : ℕ → List ℕ) (p : Profile) (s t : Panel) (row col : ℕ) : Type 0 where
  pub glyph :
      glyph_of font s (get_or s.cells (cell_at p row col) 0)
      ≡ glyph_of font t (get_or t.cells (cell_at p row col) 0)
  pub decimal :
      get_or s.decimal_point (cell_at p row col) 0 ≡ get_or t.decimal_point (cell_at p row col) 0
  pub comma : get_or s.comma_tail (cell_at p row col) 0 ≡ get_or t.comma_tail (cell_at p row col) 0
  pub arrow : get_or s.arrow_mark (cell_at p row col) 0 ≡ get_or t.arrow_mark (cell_at p row col) 0

SameCell-lit :
    (font : ℕ → List ℕ) (p : Profile) (s t : Panel) (row col ry cx : ℕ)
    → SameCell font p s t row col
    → lit font p s row col ry cx ≡ lit font p t row col ry cx
unfolding lit
SameCell-lit font p s t row col ry cx same =
    let shape = ap (λ (g : List ℕ). glyph_dot g ry cx) same.glyph in
    ground (arith, shape, same.decimal, same.comma, same.arrow)

pub ShowsCell-SameCell :
    (font : ℕ → List ℕ) (p : Profile) (s t : Panel) (dots : List ℕ) (row col : ℕ)
    → SameCell font p s t row col
    → ShowsCell font p s dots row col
    → ShowsCell font p t dots row col
unfolding ShowsCell
ShowsCell-SameCell font p s t dots row col same shown ry cx hry hcx =
    shown ry cx hry hcx ∙ ap bit_of (SameCell-lit font p s t row col ry cx same)

get_or-zeros : (n i : ℕ) → get_or (zeros n) i 0 ≡ 0
get_or-zeros zero i = refl
get_or-zeros (suc n) zero = refl
get_or-zeros (suc n) (suc i) = get_or-zeros n i

pub get_or-replicate : (n i a : ℕ) → i < n → get_or (replicate n a) i 0 ≡ a
get_or-replicate zero i a h = absurd (omega arith)
get_or-replicate (suc n) zero a h = refl
get_or-replicate (suc n) (suc i) a h = get_or-replicate n i a (omega arith)

-- A panel of spaces and no marks, whose dots are dark.
blank-Shows :
    (font : ℕ → List ℕ) (p : Profile) (s : Panel) (a b c d e : ℕ)
    → font b' ' ≡ zeros 5
    → s.cells ≡ replicate (cell_count p) b' '
    → s.dot_plane ≡ zeros a
    → s.decimal_point ≡ zeros b
    → s.comma_tail ≡ zeros c
    → s.arrow_mark ≡ zeros d
    → s.user_glyph_valid ≡ zeros e
    → Shows font p s
unfolding Shows ShowsCell lit dot glyph_of
blank-Shows font p s a b c d e blank hcells hdots hb hc hd he row col hrow hcol ry cx hry hcx =
    let i = cell_at p row col in
    let zero_at = λ (xs : List ℕ) (n j : ℕ) (h : xs ≡ zeros n).
      ap (λ (ys : List ℕ). get_or ys j 0) h ∙ get_or-zeros n j in
    let space =
      ap (λ (ys : List ℕ). get_or ys i 0) hcells
      ∙ get_or-replicate (cell_count p) i b' ' (index_below p.rows p.columns row col hrow hcol) in
    let plain = zero_at s.user_glyph_valid e (get_or s.cells i 0) he in
    let shape =
      ap (λ (ch : ℕ). get_or (font ch) cx 0) space
      ∙ (ap (λ (g : List ℕ). get_or g cx 0) blank ∙ get_or-zeros 5 cx) in
    let dark = zero_at s.dot_plane a (dot_index p (row * 7 + ry) (col * 5 + cx)) hdots in
    let decimal = zero_at s.decimal_point b i hb in
    let comma = zero_at s.comma_tail c i hc in
    let arrow = zero_at s.arrow_mark d i hd in
    ground (arith, plain, shape, dark, decimal, comma, arrow)

pub blank_panel-Shows :
    (font : ℕ → List ℕ) (p : Profile) → font b' ' ≡ zeros 5 → Shows font p (blank_panel p)
unfolding blank_panel
blank_panel-Shows font p blank =
    blank-Shows font p _ _ _ _ _ 256 blank refl refl refl refl refl refl

module _ (font : ℕ → List ℕ) (p : Profile) where
  pub cleared-Shows : (s : Panel) → IsGrid p s → font b' ' ≡ zeros 5 → Shows font p (cleared s)
  unfolding cleared clear_all_dots
  cleared-Shows s g blank =
      let spaces = ap (λ (n : ℕ). replicate n b' ') g.cells_size in
      blank-Shows font p _ _ _ _ _ _ blank spaces refl refl refl refl refl

  pub rebuild_all-Shows :
      (s : Panel) → length s.dot_plane ≡ plane_size p → Shows font p (rebuild_all font p s)
  unfolding Shows ShowsCell rebuild_all lit glyph_of
  rebuild_all-Shows s size row col hrow hcol =
      rebuild_rows-draws font p s (λ r c. true) row col hrow hcol p.rows s.dot_plane hrow refl size

  pub scroll_up-Shows : (s : Panel) → IsGrid p s → Shows font p (scroll_up font p s)
  unfolding scroll_up
  scroll_up-Shows s g = rebuild_all-Shows _ g.dots_size

  pub move_to-Shows : (s : Panel) (row col : ℕ) → Shows font p s → Shows font p (move_to row col s)
  unfolding Shows ShowsCell lit glyph_of
  move_to-Shows s row col shown = shown

  pub retreat-Shows : (s : Panel) → Shows font p s → Shows font p (retreat p s)
  unfolding retreat
  retreat-Shows s shown =
      both_branches (λ (t : Panel). Shows font p t) (ltb 0 s.cursor_col) _ _
        (move_to-Shows s _ _ shown) (move_to-Shows s _ _ shown)

  pub advance-Shows :
      (s : Panel) (vertical : Bool)
      → IsGrid p s
      → Shows font p s
      → Shows font p (advance font p vertical s)
  unfolding advance
  advance-Shows s vertical g shown =
      let P = λ (t : Panel). Shows font p t in
      both_branches P (ltb (s.cursor_col + 1) p.columns) _ _ (move_to-Shows s _ _ shown) (
        both_branches P (ltb (s.cursor_row + 1) p.rows) _ _ (move_to-Shows s _ _ shown) (
          both_branches P vertical _ _
            (scroll_up-Shows (move_to s.cursor_row 0 s)
              (move_to-IsGrid font p s g s.cursor_row 0 g.row_in (omega (arith, g.col_in))))
            (move_to-Shows s 0 0 shown)))
