-- ===== src/Vfd/Grid.antt =====
-- The sizes of the panel's lists and the place of the cursor, under each change of the panel.
use native.Mathlib.Nat.{mul_assoc}
use coin_line_emu.Base.{
  ℕ, zero, suc, ◌+◌, ◌-◌, ◌*◌, ◌<◌, ◌≡◌, ◌∙◌, refl, Bool, true, ◌&&◌, List, arith, ltb, ◌==◌,
  get_or, set, length, length-set, length-replicate, both_branches,
}
use coin_line_emu.Base.Int.{ℤ, pos, negsuc}
use coin_line_emu.Vfd.{Profile, Panel, blank_panel, zeros, at_least_one}
use coin_line_emu.Vfd.Dots.{for_below, clear_all_dots, rebuild_all}
use coin_line_emu.Vfd.Read.{plane_size}
use coin_line_emu.Vfd.Rebuild.{length-rebuild_rows, length-rebuild_row, length-rebuild_cell_dots}
use coin_line_emu.Vfd.Motion.{cleared, move_to, copy_row, copy_rows, blank_row, scroll_up, tab_stop}
use coin_line_emu.Vfd.Glyph.{
  cell_index, shift_left, push_right, put_here, retreat, set_mark, define_glyph,
}

abbrev pub cell_count : Profile → ℕ
cell_count p = p.rows * p.columns

-- The lists have the sizes of the display, and the cursor is on it.
pub record IsGrid (p : Profile) (s : Panel) : Type 0 where
  pub cells_size : length s.cells ≡ cell_count p
  pub dots_size : length s.dot_plane ≡ plane_size p
  pub decimal_size : length s.decimal_point ≡ cell_count p
  pub comma_size : length s.comma_tail ≡ cell_count p
  pub arrow_size : length s.arrow_mark ≡ cell_count p
  pub glyph_size : length s.user_glyph ≡ 256
  pub valid_size : length s.user_glyph_valid ≡ 256
  pub row_in : s.cursor_row < p.rows
  pub col_in : s.cursor_col < p.columns

-- A loop that sets elements keeps the size.
pub length-for_set :
    (n : ℕ) (at : ℕ → ℕ) (value : ℕ → List ℕ → ℕ) (xs : List ℕ)
    → length (for_below n (λ i ys. set ys (at i) (value i ys)) xs) ≡ length xs
unfolding for_below
length-for_set zero at value xs = refl
length-for_set (suc n) at value xs =
    length-set (for_below n (λ i ys. set ys (at i) (value i ys)) xs) (at n) _
    ∙ length-for_set n at value xs

pub length-copy_rows :
    (p : Profile) (n : ℕ) (cells : List ℕ) → length (copy_rows p n cells) ≡ length cells
unfolding copy_rows for_below copy_row
length-copy_rows p zero cells = refl
length-copy_rows p (suc n) cells =
    length-for_set p.columns (λ col. n * p.columns + col)
      (λ col cs. get_or cs ((n + 1) * p.columns + col) 0) (copy_rows p n cells)
    ∙ length-copy_rows p n cells

pub length-blank_row :
    (p : Profile) (row n : ℕ) (cells : List ℕ) → length (blank_row p row n cells) ≡ length cells
unfolding blank_row
length-blank_row p row n cells =
    length-for_set n (λ col. row * p.columns + col) (λ col cs. b' ') cells

length-shift_left :
    (p : Profile) (row n : ℕ) (cells : List ℕ) → length (shift_left p row n cells) ≡ length cells
unfolding shift_left
length-shift_left p row n cells =
    length-for_set n (λ col. row * p.columns + col)
      (λ col cs. get_or cs (row * p.columns + col + 1) 0) cells

pub blank_panel-IsGrid : (p : Profile) → 0 < p.rows → 0 < p.columns → IsGrid p (blank_panel p)
unfolding blank_panel
blank_panel-IsGrid p hr hc =
    let cells = λ (a : ℕ). length-replicate (cell_count p) a in
    record {
      cells_size = cells b' ';
      dots_size =
          length-replicate {A = ℕ} (p.rows * 7 * p.columns * 5) 0
          ∙ mul_assoc (p.rows * 7) p.columns 5;
      decimal_size = cells 0;
      comma_size = cells 0;
      arrow_size = cells 0;
      glyph_size = length-replicate 256 (zeros 5);
      valid_size = length-replicate {A = ℕ} 256 0;
      row_in = hr;
      col_in = hc;
    }

module _ (font : ℕ → List ℕ) (p : Profile) (s : Panel) (g : IsGrid p s) where
  pub move_to-IsGrid : (row col : ℕ) → row < p.rows → col < p.columns → IsGrid p (move_to row col s)
  move_to-IsGrid row col hr hc = record {
    cells_size = g.cells_size;
    dots_size = g.dots_size;
    decimal_size = g.decimal_size;
    comma_size = g.comma_size;
    arrow_size = g.arrow_size;
    glyph_size = g.glyph_size;
    valid_size = g.valid_size;
    row_in = hr;
    col_in = hc;
  }

  pub cleared-IsGrid : IsGrid p (cleared s)
  unfolding cleared clear_all_dots
  cleared-IsGrid = record {
    cells_size = length-replicate {A = ℕ} _ b' ' ∙ g.cells_size;
    dots_size = length-replicate {A = ℕ} _ 0 ∙ g.dots_size;
    decimal_size = length-replicate {A = ℕ} _ 0 ∙ g.decimal_size;
    comma_size = length-replicate {A = ℕ} _ 0 ∙ g.comma_size;
    arrow_size = length-replicate {A = ℕ} _ 0 ∙ g.arrow_size;
    glyph_size = g.glyph_size;
    valid_size = length-replicate {A = ℕ} _ 0 ∙ g.valid_size;
    row_in = omega (arith, g.row_in);
    col_in = omega (arith, g.col_in);
  }

  -- New cells and new dots of the same sizes.
  repaint-IsGrid :
      (cells dots : List ℕ) (row : ℕ)
      → length cells ≡ length s.cells
      → length dots ≡ length s.dot_plane
      → row < p.rows
      → IsGrid p (record s { cells = cells; dot_plane = dots; cursor_row = row })
  repaint-IsGrid cells dots row hcells hdots hrow = record {
    cells_size = hcells ∙ g.cells_size;
    dots_size = hdots ∙ g.dots_size;
    decimal_size = g.decimal_size;
    comma_size = g.comma_size;
    arrow_size = g.arrow_size;
    glyph_size = g.glyph_size;
    valid_size = g.valid_size;
    row_in = hrow;
    col_in = g.col_in;
  }

  pub scroll_up-IsGrid : IsGrid p (scroll_up font p s)
  unfolding scroll_up rebuild_all
  scroll_up-IsGrid =
      let last = p.rows - 1 in
      let moved = copy_rows p last s.cells in
      repaint-IsGrid (blank_row p last p.columns moved) _ last
        (length-blank_row p last p.columns moved ∙ length-copy_rows p last s.cells)
        (length-rebuild_rows font p _ (λ r c. true) p.rows s.dot_plane) (omega (arith, g.row_in))

  pub push_right-IsGrid : (b : ℕ) → IsGrid p (push_right font p b s)
  unfolding push_right
  push_right-IsGrid b =
      let row = s.cursor_row in
      let last = p.columns - 1 in
      let moved = shift_left p row last s.cells in
      repaint-IsGrid (set moved (row * p.columns + last) b) _ row
        (length-set moved (row * p.columns + last) b ∙ length-shift_left p row last s.cells)
        (length-rebuild_row font p _ (λ r c. true) row p.columns s.dot_plane) g.row_in

  pub put_here-IsGrid : (b : ℕ) → IsGrid p (put_here font p b s)
  unfolding put_here
  put_here-IsGrid b =
      repaint-IsGrid (set s.cells (cell_index p s) b) _ s.cursor_row
        (length-set s.cells (cell_index p s) b)
        (length-rebuild_cell_dots font p _ s.cursor_row s.cursor_col s.dot_plane) g.row_in

  pub retreat-IsGrid : IsGrid p (retreat p s)
  unfolding retreat
  retreat-IsGrid =
      both_branches (λ (t : Panel). IsGrid p t) (ltb 0 s.cursor_col) _ _
        (move_to-IsGrid _ _ g.row_in (omega (arith, g.col_in)))
        (move_to-IsGrid _ _ (omega (arith, g.row_in)) (omega (arith, g.col_in)))

  pub define_glyph-IsGrid : (args : List ℕ) → IsGrid p (define_glyph font p args s)
  unfolding define_glyph
  define_glyph-IsGrid args = record {
    cells_size = g.cells_size;
    dots_size = length-rebuild_rows font p _ _ p.rows s.dot_plane ∙ g.dots_size;
    decimal_size = g.decimal_size;
    comma_size = g.comma_size;
    arrow_size = g.arrow_size;
    glyph_size = length-set s.user_glyph (get_or args 0 0) _ ∙ g.glyph_size;
    valid_size = length-set s.user_glyph_valid (get_or args 0 0) 1 ∙ g.valid_size;
    row_in = g.row_in;
    col_in = g.col_in;
  }

  pub set_mark-IsGrid : (b : ℕ) → IsGrid p (set_mark font p b s)
  unfolding set_mark
  set_mark-IsGrid b =
      let i = cell_index p s in
      let same = λ (xs : List ℕ) (h : length xs ≡ cell_count p). length-set xs i 1 ∙ h in
      let marks = λ (test : Bool) (xs : List ℕ) (h : length xs ≡ cell_count p).
        both_branches (λ (ys : List ℕ). length ys ≡ cell_count p) test (set xs i 1) xs (same xs h)
          h in
      both_branches (λ (t : Panel). IsGrid p t) (ltb i (length s.decimal_point)) _ s
        (record {
          cells_size = g.cells_size;
          dots_size =
              length-rebuild_cell_dots font p _ s.cursor_row s.cursor_col s.dot_plane ∙ g.dots_size;
          decimal_size = g.decimal_size;
          comma_size = marks (b == 0x18) s.comma_tail g.comma_size;
          arrow_size = marks (b == 0x19 && s.cursor_row == p.rows - 1) s.arrow_mark g.arrow_size;
          glyph_size = g.glyph_size;
          valid_size = g.valid_size;
          row_in = g.row_in;
          col_in = g.col_in;
        })
        g

pub tab_stop_below : (columns col : ℕ) → 0 < columns → tab_stop columns col < columns
unfolding tab_stop
tab_stop_below columns col h = ground arith

pub at_least_one_pos : (n : ℤ) → 0 < at_least_one n
at_least_one_pos (pos n) = omega arith
at_least_one_pos (negsuc n) = omega arith
