-- ===== src/Vfd/Sound.antt =====
-- The invariant of the panel under the operations of the display.
use native.Mathlib.Nat.{mod-lt, div-lt_iff_lt-mul, mul-le-mul_right}
use coin_line_emu.Base.{
  ℕ, ◌+◌, ◌-◌, ◌*◌, ◌/◌, ◌<◌, ◌≤◌, ◌≡◌, min, ◌&&◌, ◌||◌, List, arith, ltb, leb, ◌==◌, both_branches,
  if_true,
}
use coin_line_emu.Vfd.{Panel, Vfd, zeros}
use coin_line_emu.Vfd.Grid.{tab_stop_below}
use coin_line_emu.Vfd.Panels.{
  IsSoundPanel, move_to-IsSoundPanel, cleared-IsSoundPanel, scroll_up-IsSoundPanel,
  put_here-IsSoundPanel, advance-IsSoundPanel, retreat-IsSoundPanel, push_right-IsSoundPanel,
}
use coin_line_emu.Vfd.Motion.{
  mark_decoded_command, try_finalize_m6, clear_display, home_cursor, carriage_return, line_feed,
  backspace, horizontal_tab, software_reset, place_cursor,
}
use coin_line_emu.Vfd.Glyph.{glyph_panel, write_glyph_byte}

-- The lists of the display have its sizes, the cursor is on it, and the dots agree with the cells.
unfoldable pub IsSound : (ℕ → List ℕ) → Vfd → Type 0
IsSound font v = IsSoundPanel font v.profile v.panel

-- A position that is clamped to the last cell has a row and a column.
row_of_position :
    (rows columns position : ℕ)
    → 0 < rows
    → 0 < columns
    → min position (rows * columns - 1) / columns < rows
row_of_position rows columns position hr hc =
    let cells : 1 * columns ≤ rows * columns = mul-le-mul_right columns hr in
    (div-lt_iff_lt-mul hc).1 (omega (arith, cells))

module _ (font : ℕ → List ℕ) (blank : font b' ' ≡ zeros 5) where
  -- The panel of a display is sound.
  abbrev HasSoundPanel : Vfd → Type 0
  HasSoundPanel v = IsSoundPanel font v.profile v.panel

  pub clear_display-IsSound : (v : Vfd) → HasSoundPanel v → HasSoundPanel (clear_display v)
  unfolding clear_display try_finalize_m6 mark_decoded_command
  clear_display-IsSound v h = cleared-IsSoundPanel font blank v.profile v.panel h

  pub home_cursor-IsSound : (v : Vfd) → HasSoundPanel v → HasSoundPanel (home_cursor v)
  unfolding home_cursor try_finalize_m6 mark_decoded_command
  home_cursor-IsSound v h =
      move_to-IsSoundPanel font blank v.profile v.panel 0 0 h (omega (arith, h.grid.row_in))
        (omega (arith, h.grid.col_in))

  pub carriage_return-IsSound : (v : Vfd) → HasSoundPanel v → HasSoundPanel (carriage_return v)
  unfolding carriage_return try_finalize_m6 mark_decoded_command
  carriage_return-IsSound v h =
      move_to-IsSoundPanel font blank v.profile v.panel v.panel.cursor_row 0 h h.grid.row_in
        (omega (arith, h.grid.col_in))

  pub backspace-IsSound : (v : Vfd) → HasSoundPanel v → HasSoundPanel (backspace v)
  unfolding backspace try_finalize_m6 mark_decoded_command
  backspace-IsSound v h =
      move_to-IsSoundPanel font blank v.profile v.panel v.panel.cursor_row _ h h.grid.row_in
        (omega (arith, h.grid.col_in))

  pub horizontal_tab-IsSound : (v : Vfd) → HasSoundPanel v → HasSoundPanel (horizontal_tab v)
  unfolding horizontal_tab try_finalize_m6 mark_decoded_command
  horizontal_tab-IsSound v h =
      move_to-IsSoundPanel font blank v.profile v.panel v.panel.cursor_row _ h h.grid.row_in
        (tab_stop_below v.profile.columns v.panel.cursor_col (omega (arith, h.grid.col_in)))

  pub line_feed-IsSound : (v : Vfd) → HasSoundPanel v → HasSoundPanel (line_feed font v)
  unfolding line_feed try_finalize_m6 mark_decoded_command
  line_feed-IsSound v h =
      if_true (λ (w : Vfd). HasSoundPanel w) (ltb (v.panel.cursor_row + 1) v.profile.rows) _ _
        (λ fits.
          move_to-IsSoundPanel font blank v.profile v.panel (v.panel.cursor_row + 1)
            v.panel.cursor_col h (ground (arith, fits)) h.grid.col_in)
        (scroll_up-IsSoundPanel font blank v.profile v.panel h)

  pub software_reset-IsSound : (v : Vfd) → HasSoundPanel v → HasSoundPanel (software_reset v)
  unfolding software_reset try_finalize_m6 mark_decoded_command
  software_reset-IsSound v h = clear_display-IsSound v h

  pub place_cursor-IsSound :
      (position : ℕ) (v : Vfd) → HasSoundPanel v → HasSoundPanel (place_cursor position v)
  unfolding place_cursor
  place_cursor-IsSound position v h =
      let p = v.profile in
      let hr : 0 < p.rows = omega (arith, h.grid.row_in) in
      let hc : 0 < p.columns = omega (arith, h.grid.col_in) in
      move_to-IsSoundPanel font blank p v.panel _ _ h
        (row_of_position p.rows p.columns position hr hc) (mod-lt _ hc)

  glyph_panel-IsSound :
      (v : Vfd) (b : ℕ) → HasSoundPanel v → IsSoundPanel font v.profile (glyph_panel font b v)
  unfolding glyph_panel
  glyph_panel-IsSound v b h =
      let p = v.profile in
      let P = λ (s : Panel). IsSoundPanel font p s in
      let put = put_here-IsSoundPanel font blank p v.panel b h in
      both_branches P (v.horizontal_scroll_mode && v.panel.cursor_col == p.columns - 1) _ _
        (push_right-IsSoundPanel font blank p v.panel b h)
        (both_branches P v.increment_write_mode _ _
          (advance-IsSoundPanel font blank p _ v.vertical_scroll_mode put)
          (retreat-IsSoundPanel font blank p _ put))

  pub write_glyph_byte-IsSound :
      (v : Vfd) (b : ℕ) → HasSoundPanel v → HasSoundPanel (write_glyph_byte font b v)
  unfolding write_glyph_byte try_finalize_m6
  write_glyph_byte-IsSound v b h =
      both_branches (λ (w : Vfd). HasSoundPanel w)
        (leb v.profile.rows v.panel.cursor_row || leb v.profile.columns v.panel.cursor_col) v _ h
        (glyph_panel-IsSound v b h)
