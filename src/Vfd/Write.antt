-- ===== src/Vfd/Write.antt =====
-- The bytes of the firmware: the command register, and the data register with its escape sequences.
use coin_line_emu.Base.{
  ℕ, ◌-◌, ◌%◌, Bool, true, false, ◌&&◌, ◌||◌, List, [], ◌∷◌, ◌++◌, leb, ◌==◌, if◌then◌else◌, get_or,
  length, tests,
}
use coin_line_emu.Base.Text.{is_empty}
use coin_line_emu.Vfd.{Vfd, Mode, set_busy}
use coin_line_emu.Vfd.Motion.{
  decoded, clear_display, home_cursor, carriage_return, line_feed, backspace, horizontal_tab,
  software_reset, place_cursor,
}
use coin_line_emu.Vfd.Glyph.{write_glyph_byte, set_mark, define_glyph}

unfoldable pub append_raw : ℕ → Vfd → Vfd
append_raw b v = record v { raw_log = v.raw_log ++ (b ∷ []) }

abbrev pub to_normal : Vfd → Vfd
to_normal v = record v { mode = Mode.normal }

-- A command that takes `n` bytes waits for them.
unfoldable pub await_params : ℕ → ℕ → ℕ → Vfd → Vfd
await_params cmd n cycle v = set_busy cycle 2 (record v {
  pending_esc_cmd = cmd;
  pending_esc_params = n;
  pending_esc_args = [];
  mode = Mode.esc_param_n;
})

-- A command without movement is decoded.
abbrev pub done : ℕ → Vfd → Vfd
done cycle v = set_busy cycle 2 (decoded v)

-- The control codes of writing modes, cursor and font.
unfoldable pub handle_mode : ℕ → ℕ → Vfd → Vfd
handle_mode cycle b v =
    if b == 0x11
    then done cycle (record v {
      increment_write_mode = true;
      vertical_scroll_mode = false;
      horizontal_scroll_mode = false;
    })
    else if b == 0x12
    then done cycle (record v { vertical_scroll_mode = true; horizontal_scroll_mode = false })
    else if b == 0x13
    then done cycle (record v { cursor_visible = true })
    else if b == 0x14
    then done cycle (record v { cursor_visible = false })
    else if b == 0x15
    then done cycle (record v {
      horizontal_scroll_mode = true;
      vertical_scroll_mode = false;
      increment_write_mode = true;
    })
    else if b == 0x16
    then await_params 0x16 1 cycle v
    else if b == 0x17
    then done cycle (record v { blink_enabled = false; blink_position_code = 0 })
    else done cycle (record v { increment_write_mode = false })

-- The control codes 0x1d, 0x1e and 0x1f.
unfoldable pub handle_font : ℕ → ℕ → Vfd → Vfd
handle_font cycle b v = done cycle (
    if b == 0x1d
    then record v { katakana_font = false }
    else if b == 0x1e
    then record v { katakana_font = true }
    else record v { extended_control_mode = 0x1f })

unfoldable pub log_unknown_control : Vfd → Vfd
log_unknown_control v = record v { last_unknown_escape = false }

-- The marks, the lines, the commands that take bytes, and the characters.
unfoldable pub handle_character : (ℕ → List ℕ) → ℕ → ℕ → Vfd → Vfd
handle_character font cycle b v =
    if b == 0x18 || b == 0x19
    then done cycle (record v { panel = set_mark font v.profile b v.panel })
    else if b == 0x1a
    then await_params 0x1a 1 cycle v
    else if leb 0x1d b && leb b 0x1f
    then handle_font cycle b v
    else if b == 0x0d
    then set_busy cycle 2 (carriage_return v)
    else if b == 0x0a
    then set_busy cycle 2 (line_feed font v)
    else if b == 0x1c
    then await_params 0x1c 6 cycle v
    else if leb 0x20 b
    then set_busy cycle 0 (write_glyph_byte font b v)
    else set_busy cycle 2 (log_unknown_control v)

unfoldable pub handle_normal : (ℕ → List ℕ) → ℕ → ℕ → Vfd → Vfd
handle_normal font cycle b v =
    if b == 0x1b
    then set_busy cycle 2 (record v { mode = Mode.esc })
    else if b == 0x0e || b == 0x0c
    then set_busy cycle 1 (clear_display v)
    else if b == 0x08
    then set_busy cycle 2 (backspace v)
    else if b == 0x09
    then set_busy cycle 2 (horizontal_tab v)
    else if leb 0x10 b && leb b 0x17
    then handle_mode cycle b v
    else handle_character font cycle b v

-- The byte after ESC, without its highest bit.
unfoldable pub handle_esc : ℕ → ℕ → Vfd → Vfd
handle_esc cycle byte v =
    let b2 = byte % 0x80 in
    if b2 == 0x40 || b2 == 0x02
    then to_normal (set_busy cycle 1 (clear_display v))
    else if b2 == 0x01
    then to_normal (set_busy cycle 2 (home_cursor v))
    else if b2 == 0x48
    then await_params 0x48 1 cycle v
    else if b2 == 0x49
    then set_busy cycle 1 (to_normal (software_reset v))
    else if b2 == 0x53
    then set_busy cycle 2 (to_normal (decoded (record v { flickerless_write = true })))
    else if b2 == 0x38 || b2 == 0x39
    then await_params b2 5 cycle (record v { extended_control_mode = b2 })
    else if b2 == 0x58 || b2 == 0x59
    then set_busy cycle 2 (to_normal (decoded (record v { extended_control_mode = b2 })))
    else if b2 == 0x4c || b2 == 0x54 || b2 == 0x43
    then await_params b2 (if b2 == 0x43 then 2 else 1) cycle v
    else if b2 == 0x00 || b2 == 0x03 || b2 == 0x0f
    then set_busy cycle 2 (to_normal (decoded v))
    else set_busy cycle 2 (to_normal (record v { last_unknown_escape = true }))

-- What a command does with its bytes.
unfoldable pub apply_params : (ℕ → List ℕ) → Vfd → Vfd
apply_params font v =
    let cmd = v.pending_esc_cmd in
    let args = v.pending_esc_args in
    let arg = get_or args 0 0 in
    if is_empty args
    then v
    else if cmd == 0x4c || cmd == 0x1a
    then record v { luminance = arg }
    else if cmd == 0x54
    then record v { cursor_blink_speed = arg }
    else if cmd == 0x48
    then place_cursor arg v
    else if cmd == 0x16
    then record v { blink_position_code = arg; blink_enabled = true }
    else if cmd == 0x1c && leb 6 (length args)
    then record v { panel = define_glyph font v.profile args v.panel }
    else v

unfoldable pub handle_param : (ℕ → List ℕ) → ℕ → ℕ → Vfd → Vfd
handle_param font cycle byte v0 =
    let v1 = decoded (record v0 { pending_esc_args = v0.pending_esc_args ++ (byte ∷ []) }) in
    let v2 = record v1 { pending_esc_params = v1.pending_esc_params - 1 } in
    set_busy cycle 2 (
      if v2.pending_esc_params == 0
      then record (apply_params font v2) {
        pending_esc_cmd = 0;
        pending_esc_args = [];
        mode = Mode.normal;
      }
      else v2)

abbrev pub handle_data : Mode → (ℕ → List ℕ) → ℕ → ℕ → Vfd → Vfd
handle_data Mode.normal font cycle byte v = handle_normal font cycle byte v
handle_data Mode.esc font cycle byte v = handle_esc cycle byte v
handle_data Mode.esc_param_n font cycle byte v = handle_param font cycle byte v

-- A byte is logged, and says that no unknown escape was seen.
abbrev pub logged : ℕ → Vfd → Vfd
logged b v = record (append_raw b v) { last_unknown_escape = false }

unfoldable pub write_data_byte : (ℕ → List ℕ) → ℕ → ℕ → Vfd → Vfd
write_data_byte font byte cycle v = handle_data v.mode font cycle byte (logged byte v)

abbrev is_normal : Mode → Bool
is_normal Mode.normal = true
is_normal _ = false

-- An escape sequence that is not complete is given up.
unfoldable pub abandon : Vfd → Vfd
abandon v = if is_normal v.mode then v else record v {
  mode = Mode.normal;
  pending_esc_params = 0;
  pending_esc_cmd = 0;
  pending_esc_args = [];
}

unfoldable pub write_command_byte : ℕ → ℕ → Vfd → Vfd
write_command_byte cmd cycle v0 =
    let v = abandon (logged cmd v0) in
    if cmd == 0x40
    then set_busy cycle 1 (software_reset v)
    else set_busy cycle 2 (decoded (place_cursor cmd v))

-- A write selects the display by bit 6, and the command register by bit 5.
unfoldable pub write : (ℕ → List ℕ) → ℕ → ℕ → ℕ → Vfd → Vfd
write font byte cycle pio_port_b v =
    if tests pio_port_b 0x40
    then v
    else if tests pio_port_b 0x20
    then write_command_byte byte cycle v
    else write_data_byte font byte cycle v

-- A write of the firmware: the byte, the cycle and the image of the port that selects the register.
pub record Access : Type 0 where
  pub byte : ℕ
  pub cycle : ℕ
  pub pio_port_b : ℕ

unfoldable pub run : (ℕ → List ℕ) → List Access → Vfd → Vfd
run font [] v = v
run font (a ∷ rest) v = run font rest (write font a.byte a.cycle a.pio_port_b v)
