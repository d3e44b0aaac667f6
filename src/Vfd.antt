-- ===== src/Vfd.antt =====
-- The vacuum-fluorescent display, src/mame/coinline/millennium_vfd_model.{h,cpp}: its state, its
-- reset and the setters of the board. Dots has the dot plane, Motion the cursor, Glyph the writing of
-- a character, Write the bytes of the firmware, Snapshot the texts; the other modules have the proofs.
pub mod Dots
pub mod Read
pub mod Agree
pub mod Rebuild
pub mod Motion
pub mod Glyph
pub mod Write
pub mod Grid
pub mod Shows
pub mod Changes
pub mod Panels
pub mod Sound
pub mod Firmware
pub mod Typing
pub mod Text
pub mod Scroll
pub mod Busy
pub mod Snapshot
pub mod Fixture
pub mod ReadBack
pub mod Bracket
pub mod Own
pub mod ElevenLine
pub mod Waiting
pub mod Escape
use coin_line_emu.Base.{
  ℕ, ◌+◌, ◌-◌, ◌*◌, ◌%◌, max, min, Bool, true, false, List, [], ◌∷◌, ltb, leb, ◌==◌, if◌then◌else◌,
  set, replicate, length, u64,
}
use coin_line_emu.Base.Int.{ℤ, pos, negsuc}

-- `millennium_display_profile`
pub record DisplayProfile : Type 0 where
  pub variant : List ℕ
  pub rows : ℤ
  pub columns : ℤ
  pub busy_cycles_char : ℤ
  pub busy_cycles_clear : ℤ
  pub busy_cycles_cursor : ℤ

-- The profile that `configure` keeps: each number is at least 1.
pub record Profile : Type 0 where
  pub variant : List ℕ
  pub rows : ℕ
  pub columns : ℕ
  pub busy_cycles_char : ℕ
  pub busy_cycles_clear : ℕ
  pub busy_cycles_cursor : ℕ

-- What is on the glass: characters, dots, marks, the glyphs that were defined, and the cursor.
pub record Panel : Type 0 where
  pub cells : List ℕ
  pub dot_plane : List ℕ
  pub decimal_point : List ℕ
  pub comma_tail : List ℕ
  pub arrow_mark : List ℕ
  pub user_glyph : List (List ℕ)
  pub user_glyph_valid : List ℕ
  pub cursor_row : ℕ
  pub cursor_col : ℕ

pub data Mode : Type 0 where
  normal : Mode
  esc : Mode
  esc_param_n : Mode

pub record Vfd : Type 0 where
  pub profile : Profile
  pub panel : Panel
  pub raw_log : List ℕ
  pub busy_until_cycle : ℕ
  pub mode : Mode
  pub saw_decoded_command : Bool
  pub saw_printable_data : Bool
  pub m6_met : Bool
  pub last_unknown_escape : Bool
  pub increment_write_mode : Bool
  pub vertical_scroll_mode : Bool
  pub horizontal_scroll_mode : Bool
  pub cursor_visible : Bool
  pub active_line : ℕ
  pub active_page : ℕ
  pub blink_enabled : Bool
  pub blink_position_code : ℕ
  pub softkey_labels : List (List ℕ)
  pub katakana_font : Bool
  pub flickerless_write : Bool
  pub luminance : ℕ
  pub cursor_blink_speed : ℕ
  pub extended_control_mode : ℕ
  pub pending_esc_cmd : ℕ
  pub pending_esc_params : ℕ
  pub pending_esc_args : List ℕ

abbrev pub at_least_one : ℤ → ℕ
at_least_one (pos n) = max 1 n
at_least_one (negsuc n) = 1

unfoldable pub configured : DisplayProfile → Profile
configured p = record {
  variant = p.variant;
  rows = at_least_one p.rows;
  columns = at_least_one p.columns;
  busy_cycles_char = at_least_one p.busy_cycles_char;
  busy_cycles_clear = at_least_one p.busy_cycles_clear;
  busy_cycles_cursor = at_least_one p.busy_cycles_cursor;
}

unfoldable pub configure : DisplayProfile → Vfd → Vfd
configure p v = record v { profile = configured p }

-- `assign` and `fill` with zeros
abbrev pub zeros : ℕ → List ℕ
zeros n = replicate n 0

unfoldable pub blank_panel : Profile → Panel
blank_panel p = record {
  cells = replicate (p.rows * p.columns) b' ';
  dot_plane = zeros (p.rows * 7 * p.columns * 5);
  decimal_point = zeros (p.rows * p.columns);
  comma_tail = zeros (p.rows * p.columns);
  arrow_mark = zeros (p.rows * p.columns);
  user_glyph = replicate 256 (zeros 5);
  user_glyph_valid = zeros 256;
  cursor_row = 0;
  cursor_col = 0;
}

unfoldable pub reset : Vfd → Vfd
reset v = record {
  profile = v.profile;
  panel = blank_panel v.profile;
  raw_log = [];
  busy_until_cycle = 0;
  mode = Mode.normal;
  saw_decoded_command = false;
  saw_printable_data = false;
  m6_met = false;
  last_unknown_escape = false;
  increment_write_mode = true;
  vertical_scroll_mode = false;
  horizontal_scroll_mode = false;
  cursor_visible = false;
  active_line = 0;
  active_page = 0;
  blink_enabled = false;
  blink_position_code = 0;
  softkey_labels = replicate 10 [];
  katakana_font = false;
  flickerless_write = false;
  luminance = 0xff;
  cursor_blink_speed = 0;
  extended_control_mode = 0;
  pending_esc_cmd = 0;
  pending_esc_params = 0;
  pending_esc_args = [];
}

abbrev clamp_below : ℕ → ℤ → ℕ
clamp_below last (pos n) = min n last
clamp_below last (negsuc n) = 0

unfoldable pub set_active_line : ℤ → Vfd → Vfd
set_active_line line v = record v { active_line = clamp_below (v.profile.rows - 1) line }

unfoldable pub set_active_page : ℕ → Vfd → Vfd
set_active_page page v = record v { active_page = page % 4 }

unfoldable pub set_blink_enabled : Bool → Vfd → Vfd
set_blink_enabled enabled v = record v { blink_enabled = enabled }

unfoldable pub set_softkey_label : ℕ → List ℕ → Vfd → Vfd
set_softkey_label i label v =
    if leb (length v.softkey_labels) i
    then v
    else record v { softkey_labels = set v.softkey_labels i label }

-- What is added to the busy time: 1 is a clear, 2 a cursor movement, else a character.
unfoldable pub busy_cycles : ℕ → Profile → ℕ
busy_cycles kind p =
    if kind == 1
    then p.busy_cycles_clear
    else if kind == 2
    then p.busy_cycles_cursor
    else p.busy_cycles_char

unfoldable pub set_busy : ℕ → ℕ → Vfd → Vfd
set_busy cycle kind v = record v {
  busy_until_cycle = u64 (max v.busy_until_cycle cycle + busy_cycles kind v.profile);
}

unfoldable pub status_read : ℕ → Vfd → ℕ
status_read cycle v = if ltb cycle v.busy_until_cycle then 0x80 else 0
