-- ===== src/Vfd/Glyph.antt =====
-- Writing a character at the cursor, a mark, and the definition of a character.
use coin_line_emu.Base.{
  ℕ, ◌+◌, ◌-◌, ◌*◌, Bool, true, ◌&&◌, ◌||◌, List, ltb, leb, ◌==◌, if◌then◌else◌, get_or, set,
  length,
}
use coin_line_emu.Vfd.{Profile, Panel, Vfd, zeros}
use coin_line_emu.Vfd.Dots.{for_below, rebuild_cell_dots, rebuild_row, rebuild_rows}
use coin_line_emu.Vfd.Motion.{try_finalize_m6, move_to, scroll_up}

abbrev pub cell_index : Profile → Panel → ℕ
cell_index p s = s.cursor_row * p.columns + s.cursor_col

-- The cells of the row from `row * columns` move left by one.
unfoldable pub shift_left : Profile → ℕ → ℕ → List ℕ → List ℕ
shift_left p row n cells =
    for_below n (λ col cs. set cs (row * p.columns + col) (get_or cs (row * p.columns + col + 1) 0))
      cells

-- The row of the cursor takes a character at its right end.
unfoldable pub push_right : (ℕ → List ℕ) → Profile → ℕ → Panel → Panel
push_right font p b s =
    let row = s.cursor_row in
    let moved = shift_left p row (p.columns - 1) s.cells in
    let t = record s { cells = set moved (row * p.columns + (p.columns - 1)) b } in
    record t { dot_plane = rebuild_row font p t (λ r c. true) row p.columns t.dot_plane }

-- The cell of the cursor takes a character.
unfoldable pub put_here : (ℕ → List ℕ) → Profile → ℕ → Panel → Panel
put_here font p b s =
    let t = record s { cells = set s.cells (cell_index p s) b } in
    record t { dot_plane = rebuild_cell_dots font p t s.cursor_row s.cursor_col t.dot_plane }

-- The cursor moves on by one cell; `vertical` says that the text moves up at the end.
unfoldable pub advance : (ℕ → List ℕ) → Profile → Bool → Panel → Panel
advance font p vertical s =
    if ltb (s.cursor_col + 1) p.columns
    then move_to s.cursor_row (s.cursor_col + 1) s
    else if ltb (s.cursor_row + 1) p.rows
    then move_to (s.cursor_row + 1) 0 s
    else if vertical
    then scroll_up font p (move_to s.cursor_row 0 s)
    else move_to 0 0 s

-- The cursor moves back by one cell.
unfoldable pub retreat : Profile → Panel → Panel
retreat p s =
    if ltb 0 s.cursor_col
    then move_to s.cursor_row (s.cursor_col - 1) s
    else move_to (s.cursor_row - 1) (p.columns - 1) s

-- The panel after a character is written, when the cursor is on it.
unfoldable pub glyph_panel : (ℕ → List ℕ) → ℕ → Vfd → Panel
glyph_panel font b v =
    let p = v.profile in
    let s = v.panel in
    if v.horizontal_scroll_mode && s.cursor_col == p.columns - 1
    then push_right font p b s
    else if v.increment_write_mode
    then advance font p v.vertical_scroll_mode (put_here font p b s)
    else retreat p (put_here font p b s)

unfoldable pub write_glyph_byte : (ℕ → List ℕ) → ℕ → Vfd → Vfd
write_glyph_byte font b v =
    if leb v.profile.rows v.panel.cursor_row || leb v.profile.columns v.panel.cursor_col
    then v
    else try_finalize_m6 (record v { panel = glyph_panel font b v; saw_printable_data = true })

-- The comma (0x18) or the arrow (0x19) of the cell of the cursor is set.
abbrev pub with_mark : Profile → ℕ → Panel → Panel
with_mark p b s =
    let i = cell_index p s in
    record s {
      comma_tail = if b == 0x18 then set s.comma_tail i 1 else s.comma_tail;
      arrow_mark =
          if b == 0x19 && s.cursor_row == p.rows - 1 then set s.arrow_mark i 1 else s.arrow_mark;
    }

unfoldable pub set_mark : (ℕ → List ℕ) → Profile → ℕ → Panel → Panel
set_mark font p b s =
    let t = with_mark p b s in
    if ltb (cell_index p s) (length s.decimal_point)
    then record t { dot_plane = rebuild_cell_dots font p t s.cursor_row s.cursor_col s.dot_plane }
    else s

-- Five columns become the glyph of a character, and its cells are drawn again.
abbrev pub with_glyph : List ℕ → Panel → Panel
with_glyph args s =
    let code = get_or args 0 0 in
    let glyph =
      for_below 5 (λ i g. set g i (get_or args (i + 1) 0)) (get_or s.user_glyph code (zeros 5)) in
    record s {
      user_glyph = set s.user_glyph code glyph;
      user_glyph_valid = set s.user_glyph_valid code 1;
    }

-- Whether a cell holds a character.
abbrev pub holds : Profile → Panel → ℕ → ℕ → ℕ → Bool
holds p s code row col = get_or s.cells (row * p.columns + col) 0 == code

unfoldable pub define_glyph : (ℕ → List ℕ) → Profile → List ℕ → Panel → Panel
define_glyph font p args s =
    let t = with_glyph args s in
    record t { dot_plane = rebuild_rows font p t (holds p t (get_or args 0 0)) p.rows t.dot_plane }
