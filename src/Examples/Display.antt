-- ===== src/Examples/Display.antt =====
-- The display: a panel of 2 rows and 4 columns.
use coin_line_emu.Base.{
  ℕ, ◌+◌, ◌-◌, ◌*◌, ◌<◌, ◌≤◌, ◌≡◌, refl, true, false, List, [], ◌∷◌, ◌++◌, arith, ltb, ◌==◌,
  if◌then◌else◌, min, get_or, length, take, bit_of,
}
use coin_line_emu.Base.Text.{bytes}
use coin_line_emu.Base.Int.{pos, negsuc}
use coin_line_emu.Vfd.{
  DisplayProfile, Panel, Vfd, Mode, zeros, configured, configure, reset, blank_panel, status_read,
}
use coin_line_emu.Vfd.Agree.{lit, cell_at}
use coin_line_emu.Vfd.Read.{dot}
use coin_line_emu.Vfd.Grid.{IsGrid, blank_panel-IsGrid}
use coin_line_emu.Vfd.Motion.{line_feed}
use coin_line_emu.Vfd.Write.{Access, run, write}
use coin_line_emu.Vfd.Firmware.{written, run-IsGrid, run-lit}
use coin_line_emu.Vfd.Escape.{run-normal}
use coin_line_emu.Vfd.Text.{text_accesses, run-text_accesses}
use coin_line_emu.Vfd.Scroll.{line_feed-moves}
use coin_line_emu.Vfd.Busy.{write-status_read}
use coin_line_emu.Vfd.Snapshot.{export_snapshot_json}
use coin_line_emu.Vfd.Fixture.{text_rows_match_fixture_json}
use coin_line_emu.Vfd.Own.{text_rows_match_fixture_json-export_snapshot_json}

-- A font whose space is blank.
abbrev stripes : ℕ → List ℕ
stripes ch = if ch == b' ' then zeros 5 else ch ∷ 0x7f ∷ 0 ∷ 0x7f ∷ ch ∷ []

abbrev small : DisplayProfile
small = record {
  variant = bytes "2line";
  rows = pos 2;
  columns = pos 4;
  busy_cycles_char = pos 48;
  busy_cycles_clear = negsuc 3;
  busy_cycles_cursor = pos 64;
}

abbrev empty_panel : Panel
empty_panel = record {
  cells = [];
  dot_plane = [];
  decimal_point = [];
  comma_tail = [];
  arrow_mark = [];
  user_glyph = [];
  user_glyph_valid = [];
  cursor_row = 0;
  cursor_col = 0;
}

abbrev new_display : Vfd
new_display = record {
  profile = record {
    variant = bytes "2line";
    rows = 2;
    columns = 20;
    busy_cycles_char = 48;
    busy_cycles_clear = 240;
    busy_cycles_cursor = 64;
  };
  panel = empty_panel;
  raw_log = [];
  busy_until_cycle = 0;
  mode = Mode.normal;
  saw_decoded_command = false;
  saw_printable_data = false;
  m6_met = false;
  last_unknown_escape = false;
  increment_write_mode = true;
  vertical_scroll_mode = false;
  horizontal_scroll_mode = false;
  cursor_visible = false;
  active_line = 0;
  active_page = 0;
  blink_enabled = false;
  blink_position_code = 0;
  softkey_labels = [];
  katakana_font = false;
  flickerless_write = false;
  luminance = 0xff;
  cursor_blink_speed = 0;
  extended_control_mode = 0;
  pending_esc_cmd = 0;
  pending_esc_params = 0;
  pending_esc_args = [];
}

-- A write to the data register.
abbrev sent : ℕ → Access
sent b = record { byte = b; cycle = 10; pio_port_b = 0 }

-- HI, a comma, a new line, and the code that asks for a character to be defined.
abbrev greeting : List Access
greeting = sent b'H' ∷ sent b'I' ∷ sent 0x18 ∷ sent 0x0a ∷ sent b'!' ∷ sent 0x1c ∷ []

run-IsGrid_example :
    IsGrid (configured small) (written stripes refl small new_display greeting).panel
run-IsGrid_example = run-IsGrid stripes refl small new_display greeting

run-lit_example :
    let s = (written stripes refl small new_display greeting).panel in
    dot (configured small) s.dot_plane (1 * 7 + 3) (2 * 5 + 1)
    ≡ bit_of (lit stripes (configured small) s 1 2 3 1)
unfolding configured
run-lit_example =
    run-lit stripes refl small new_display greeting 1 2 3 1 (omega arith) (omega arith)
      (omega arith) (omega arith)

-- A definition of a character that is cut short by seven more bytes.
run-normal_example :
    (k : ℕ) × (k ≤ 7)
    × ((run stripes
          (take k (text_accesses 10 (bytes "ABCDEFG")))
          (run stripes greeting (reset new_display))).mode
        ≡ Mode.normal)
unfolding text_accesses bytes
run-normal_example =
    run-normal stripes new_display greeting (text_accesses 10 (bytes "ABCDEFG")) (omega arith) (
      (refl, refl),
      (
        (refl, refl),
        ((refl, refl), ((refl, refl), ((refl, refl), ((refl, refl), ((refl, refl), tt))))),
      ),
    )

run-text_accesses_example :
    get_or
      (run stripes
        (text_accesses 10 (bytes "HELLO"))
        (reset (configure small new_display))).panel.cells
      4
      0
    ≡ (if ltb 4 (length (bytes "HELLO")) then get_or (bytes "HELLO") 4 0 else b' ')
unfolding configured bytes
run-text_accesses_example =
    run-text_accesses stripes 10 small new_display (bytes "HELLO") 4 (omega arith)
      (omega arith, (omega arith, (omega arith, (omega arith, (omega arith, tt))))) (omega arith)

abbrev started : Vfd
unfolding configure configured reset
started = reset (configure small new_display)

started-IsGrid : IsGrid started.profile started.panel
unfolding started configure configured reset
started-IsGrid = blank_panel-IsGrid (configured small) (omega arith) (omega arith)

line_feed-moves_example :
    let p = started.profile in
    let s = started.panel in
    let t = (line_feed stripes started).panel in
    (t.cursor_row ≡ min (s.cursor_row + 1) (p.rows - 1))
    × (t.cursor_col ≡ s.cursor_col)
    × (get_or t.cells (cell_at p 0 3) 0 ≡ (
        if ltb (s.cursor_row + 1) p.rows
        then get_or s.cells (cell_at p 0 3) 0
        else if 0 == p.rows - 1
        then b' '
        else get_or s.cells (cell_at p (0 + 1) 3) 0))
unfolding started
line_feed-moves_example =
    line_feed-moves stripes started 0 3 started-IsGrid (omega arith) (omega arith)

write-status_read_example :
    let w = write stripes b'A' 100 0 started in
    (w.raw_log ≡ started.raw_log ++ (b'A' ∷ []))
    × (started.busy_until_cycle < w.busy_until_cycle)
    × (status_read 100 w ≡ 0x80)
unfolding started configured
write-status_read_example =
    write-status_read stripes small started b'A' 100 0 refl refl (omega arith)

text_rows_match_fixture_json-export_snapshot_json_example :
    text_rows_match_fixture_json (export_snapshot_json started) started ≡ true
unfolding started blank_panel bytes
text_rows_match_fixture_json-export_snapshot_json_example =
    text_rows_match_fixture_json-export_snapshot_json started (omega arith) refl
      (
        omega arith,
        (
          omega arith,
          (
            omega arith,
            (omega arith, (omega arith, (omega arith, (omega arith, (omega arith, tt))))),
          ),
        ),
      )
      (
        (λ e. omega (arith, e)),
        (
          (λ e. omega (arith, e)),
          ((λ e. omega (arith, e)), ((λ e. omega (arith, e)), ((λ e. omega (arith, e)), tt))),
        ),
      )
