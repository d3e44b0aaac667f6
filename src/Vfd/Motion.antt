-- ===== src/Vfd/Motion.antt =====
-- Clearing the display, moving the cursor, and the milestone that a text was shown.
use coin_line_emu.Base.{
  ℕ, ◌+◌, ◌-◌, ◌*◌, ◌/◌, ◌%◌, min, Bool, true, false, not, ◌&&◌, ◌||◌, List, [], ◌∷◌, ltb, leb,
  ◌==◌, if◌then◌else◌, get_or, set, replicate, length,
}
use coin_line_emu.Vfd.{Profile, Panel, Vfd, zeros}
use coin_line_emu.Vfd.Dots.{for_below, clear_all_dots, rebuild_all}

unfoldable pub mark_decoded_command : Vfd → Vfd
mark_decoded_command v = record v { saw_decoded_command = true }

-- Whether a cell holds more than a space.
unfoldable pub is_nonempty : List ℕ → Bool
is_nonempty [] = false
is_nonempty (c ∷ cs) = not (c == b' ') || is_nonempty cs

unfoldable pub try_finalize_m6 : Vfd → Vfd
try_finalize_m6 v = record v {
  m6_met =
      if is_nonempty v.panel.cells && (v.saw_decoded_command || v.saw_printable_data)
      then true
      else v.m6_met;
}

-- What each decoded command ends with.
abbrev pub decoded : Vfd → Vfd
decoded v = try_finalize_m6 (mark_decoded_command v)

-- The panel with its cells, marks and dots cleared.
unfoldable pub cleared : Panel → Panel
cleared s = clear_all_dots (record s {
  cells = replicate (length s.cells) b' ';
  decimal_point = zeros (length s.decimal_point);
  comma_tail = zeros (length s.comma_tail);
  arrow_mark = zeros (length s.arrow_mark);
  user_glyph_valid = zeros (length s.user_glyph_valid);
  cursor_row = 0;
  cursor_col = 0;
})

unfoldable pub clear_display : Vfd → Vfd
clear_display v = decoded (record v { panel = cleared v.panel })

abbrev pub move_to : ℕ → ℕ → Panel → Panel
move_to row col s = record s { cursor_row = row; cursor_col = col }

unfoldable pub home_cursor : Vfd → Vfd
home_cursor v = decoded (record v { panel = move_to 0 0 v.panel })

unfoldable pub carriage_return : Vfd → Vfd
carriage_return v = decoded (record v { panel = move_to v.panel.cursor_row 0 v.panel })

-- One row of cells takes the characters of the row below it.
unfoldable pub copy_row : Profile → ℕ → ℕ → List ℕ → List ℕ
copy_row p row n cells =
    for_below n
      (λ col cs. set cs (row * p.columns + col) (get_or cs ((row + 1) * p.columns + col) 0)) cells

unfoldable pub copy_rows : Profile → ℕ → List ℕ → List ℕ
copy_rows p n cells = for_below n (λ row cs. copy_row p row p.columns cs) cells

unfoldable pub blank_row : Profile → ℕ → ℕ → List ℕ → List ℕ
blank_row p row n cells = for_below n (λ col cs. set cs (row * p.columns + col) b' ') cells

-- The text moves up by one row, and all dots are drawn again.
unfoldable pub scroll_up : (ℕ → List ℕ) → Profile → Panel → Panel
scroll_up font p s =
    let cells = blank_row p (p.rows - 1) p.columns (copy_rows p (p.rows - 1) s.cells) in
    rebuild_all font p (record s { cells = cells; cursor_row = p.rows - 1 })

unfoldable pub line_feed : (ℕ → List ℕ) → Vfd → Vfd
line_feed font v =
    let s = v.panel in
    decoded (
      if ltb (s.cursor_row + 1) v.profile.rows
      then record v { panel = move_to (s.cursor_row + 1) s.cursor_col s }
      else record v { panel = scroll_up font v.profile s })

unfoldable pub backspace : Vfd → Vfd
backspace v =
    decoded (record v { panel = move_to v.panel.cursor_row (v.panel.cursor_col - 1) v.panel })

unfoldable pub tab_stop : ℕ → ℕ → ℕ
tab_stop columns col =
    let next = (col / 4 + 1) * 4 in if leb columns next then columns - 1 else next

unfoldable pub horizontal_tab : Vfd → Vfd
horizontal_tab v =
    let s = v.panel in
    decoded (record v { panel = move_to s.cursor_row (tab_stop v.profile.columns s.cursor_col) s })

unfoldable pub software_reset : Vfd → Vfd
software_reset v = decoded (record (clear_display v) {
  increment_write_mode = true;
  vertical_scroll_mode = false;
  horizontal_scroll_mode = false;
  cursor_visible = false;
  blink_enabled = false;
  blink_position_code = 0;
  katakana_font = false;
  flickerless_write = false;
  pending_esc_cmd = 0;
  pending_esc_params = 0;
  extended_control_mode = 0;
  pending_esc_args = [];
})

-- The cursor at a position counted from the first cell, or on the last one.
unfoldable pub place_cursor : ℕ → Vfd → Vfd
place_cursor position v =
    let p = v.profile in
    let pos = min position (p.rows * p.columns - 1) in
    record v { panel = move_to (pos / p.columns) (pos % p.columns) v.panel }
