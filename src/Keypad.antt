-- ===== src/Keypad.antt =====
-- The keypad of src/mame/coinline/millennium_keypad_model.{h,cpp}: the key matrix behind the
-- ports, the debounced hook switch, and the scan milestone.
pub mod Matrix
pub mod Hook
use coin_line_emu.Base.Int.{ℤ, pos, negsuc, is_positive, to_u32, to_u64}
use coin_line_emu.Base.{
  ℕ, zero, suc, ◌+◌, ◌-◌, ◌*◌, ◌/◌, ◌^◌, Bool, true, false, not, ◌&&◌, ◌||◌, List, [], ◌∷◌, bit_and,
  bit_or, leb, ltb, ◌==◌, if◌then◌else◌, u8, u32, u64, tests, get_or,
}

-- `millennium_terminal21_user_io_profile`
pub data Profile : Type 0 where
  repdial_5 repdial_10 vfd_11line_softkeys : Profile

-- `millennium_keypad_board_config`
pub record Config : Type 0 where
  pub debounce_cycles : ℤ
  pub scan_min_total_reads : ℤ
  pub scan_min_pb_deltas : ℤ
  pub quick_access_key_count : ℕ
  pub terminal_21_profile : Profile
  pub terminal_21_profile_explicit : Bool

pub record Keypad : Type 0 where
  pub cfg : Config
  pub port_b_latch : ℕ
  pub port_c_latch : ℕ
  pub last_hook_raw_change_cycle : ℕ
  pub hook_raw : Bool
  pub hook_stable : Bool
  pub total_pa_reads : ℕ
  pub last_pb_for_scan : ℕ
  pub pb_scan_changes : ℕ
  pub m7_pending : Bool
  pub m7_latched : Bool

-- The member initialisers.
abbrev pub new : Keypad
new = record {
  cfg = record {
    debounce_cycles = pos 6;
    scan_min_total_reads = pos 16;
    scan_min_pb_deltas = pos 4;
    quick_access_key_count = 0;
    terminal_21_profile = repdial_10;
    terminal_21_profile_explicit = false;
  };
  port_b_latch = 0xff;
  port_c_latch = 0xff;
  last_hook_raw_change_cycle = 0;
  hook_raw = false;
  hook_stable = false;
  total_pa_reads = 0;
  last_pb_for_scan = 0xff;
  pb_scan_changes = 0;
  m7_pending = false;
  m7_latched = false;
}

-- `x < 0`
abbrev is_negative : ℤ → Bool
is_negative (pos n) = false
is_negative (negsuc n) = true

unfoldable pub configure : Config → Keypad → Keypad
configure cfg m = record m {
  cfg = record cfg {
    debounce_cycles = if is_negative cfg.debounce_cycles then pos 0 else cfg.debounce_cycles;
    scan_min_total_reads =
        if is_positive cfg.scan_min_total_reads then cfg.scan_min_total_reads else pos 1;
    scan_min_pb_deltas =
        if is_positive cfg.scan_min_pb_deltas then cfg.scan_min_pb_deltas else pos 1;
  };
}

unfoldable pub reset : Keypad → Keypad
reset m = record new { cfg = m.cfg }

unfoldable pub write_port_b : ℕ → ℕ → Keypad → Keypad
write_port_b byte cycle m = record m { port_b_latch = byte }

unfoldable pub write_port_c : ℕ → ℕ → Keypad → Keypad
write_port_c byte cycle m = record m { port_c_latch = byte }

unfoldable pub write_control : ℕ → ℕ → Keypad → Keypad
write_control byte cycle m = m

-- The bit of the key bitmap behind each row and column.
abbrev pub k_bits : List (List ℕ)
k_bits =
    (0 ∷ 1 ∷ 2 ∷ 30 ∷ [])
    ∷ (3 ∷ 4 ∷ 5 ∷ 13 ∷ [])
    ∷ (6 ∷ 7 ∷ 8 ∷ 14 ∷ [])
    ∷ (9 ∷ 10 ∷ 11 ∷ 15 ∷ [])
    ∷ []

unfoldable pub k_bit : ℕ → ℕ → ℕ
k_bit row col = get_or (get_or k_bits row []) col 0

unfoldable pub matrix_row_col_to_keymask_bit : ℤ → ℤ → ℤ
matrix_row_col_to_keymask_bit (pos row) (pos col) =
    if ltb 3 row || ltb 3 col then negsuc 0 else pos (k_bit row col)
matrix_row_col_to_keymask_bit _ _ = negsuc 0

abbrev pub k_mask_hook : ℕ
k_mask_hook = 19

abbrev pub k_mask_dial_a : ℕ
k_mask_dial_a = 30

-- The loops over a nibble of strobes: the first of the bits from `i` on that is set.
unfoldable pub first_set : ℕ → ℕ → ℕ → ℤ
first_set nibble i zero = negsuc 0
first_set nibble i (suc left) =
    let later = first_set nibble (i + 1) left in if tests nibble (2 ^ i) then pos i else later

unfoldable pub active_column_from_port_b : ℕ → ℤ
active_column_from_port_b pb =
    let high = bit_and ((0xffffffff - pb) / 16) 0xf in
    let low = bit_and (0xffffffff - pb) 0xf in
    if not (high == 0) then first_set high 0 4 else if low == 0 then negsuc 0 else first_set low 0 4

-- The hook's state behind a sample.
unfoldable pub sample_hook : Bool → ℕ → Keypad → Keypad
sample_hook raw cycle m =
    let changed = (raw && not m.hook_raw) || (not raw && m.hook_raw) in
    let m1 =
      if changed then record m { hook_raw = raw; last_hook_raw_change_cycle = cycle } else m in
    if not (is_positive m1.cfg.debounce_cycles)
      || leb (u64 (m1.last_hook_raw_change_cycle + to_u64 m1.cfg.debounce_cycles)) cycle
    then record m1 { hook_stable = m1.hook_raw }
    else m1

unfoldable pub apply_hook_debounce : ℕ → ℕ → Keypad → Keypad × ℕ
apply_hook_debounce keymatrix_bits cycle m =
    let m1 = sample_hook (tests keymatrix_bits (2 ^ k_mask_hook)) cycle m in
    let out = bit_and keymatrix_bits (0xffffffff - 2 ^ k_mask_hook) in
    (m1, if m1.hook_stable then bit_or out (2 ^ k_mask_hook) else out)

unfoldable pub keymatrix_with_hook_debounce : ℕ → ℕ → Keypad → Keypad × ℕ
keymatrix_with_hook_debounce keymatrix_bits cycle m = apply_hook_debounce keymatrix_bits cycle m

unfoldable pub observe_scan : ℕ → Keypad → Keypad
observe_scan pb m0 =
    let m1 = record m0 { total_pa_reads = u64 (m0.total_pa_reads + 1) } in
    let m =
      if not (pb == m1.last_pb_for_scan)
      then record m1 { last_pb_for_scan = pb; pb_scan_changes = u32 (m1.pb_scan_changes + 1) }
      else m1 in
    if not m.m7_latched
      && leb (to_u64 m.cfg.scan_min_total_reads) m.total_pa_reads
      && leb (to_u32 m.cfg.scan_min_pb_deltas) m.pb_scan_changes
    then record m { m7_pending = true; m7_latched = true }
    else m

unfoldable pub consume_m7_pending : Keypad → Keypad × Bool
consume_m7_pending m = (record m { m7_pending = false }, m.m7_pending)

-- The key at a row and column is pressed.
abbrev pub pressed : ℕ → ℕ → ℕ → Bool
pressed keys row col = tests keys (2 ^ k_bit row col)

-- `rows &= ~(1U << row)`
abbrev pub clear_row : ℕ → ℕ → ℕ
clear_row row rows = bit_and rows (255 - 2 ^ row)

-- The loop over the rows of a column from `row` on, with `left` to come.
unfoldable pub scan_rows : ℕ → ℕ → ℕ → ℕ → ℕ → ℕ
scan_rows keys col row zero rows = rows
scan_rows keys col row (suc left) rows =
    scan_rows keys col (row + 1) left (if pressed keys row col then clear_row row rows else rows)

-- The loop over the columns from `col` on, with `left` to come.
unfoldable pub scan_columns : ℕ → ℕ → ℕ → ℕ → ℕ
scan_columns keys col zero rows = rows
scan_columns keys col (suc left) rows =
    scan_columns keys (col + 1) left (scan_rows keys col 0 4 rows)

-- The row lines for an active column.
unfoldable pub row_lines : ℕ → ℤ → ℕ
row_lines keys (pos col) =
    if leb col 3 then scan_rows keys col 0 4 0x0f else scan_columns keys 0 4 0x0f
row_lines keys (negsuc _) = scan_columns keys 0 4 0x0f

unfoldable pub read_port_a : ℕ → ℕ → Keypad → Keypad × ℕ
read_port_a keymatrix_bits cycle m = (
  observe_scan m.port_b_latch m,
  bit_and (row_lines keymatrix_bits (active_column_from_port_b m.port_b_latch)) 0x0f,
)

unfoldable pub read_port_b : ℕ → ℕ → Keypad → ℕ
read_port_b keymatrix_bits cycle m = m.port_b_latch

-- The loop over the bits 12 to 15, from `i` on.
unfoldable pub scan_low : ℕ → ℕ → ℕ → ℕ → ℕ
scan_low keys i zero low = low
scan_low keys i (suc left) low =
    scan_low keys (i + 1) left (if tests keys (2 ^ (12 + i)) then clear_row i low else low)

-- `if ((keys & (1U << bit)) != 0) lines &= ~(1U << line)`
abbrev pub clear_line : ℕ → ℕ → ℕ → ℕ → ℕ
clear_line keys bit line lines = if tests keys (2 ^ bit) then clear_row line lines else lines

unfoldable pub read_port_c : ℕ → ℕ → Keypad → ℕ
read_port_c keys cycle m =
    let low = scan_low keys 0 4 0x0f in
    let h0 = clear_line keys 16 0 0x0f in
    let h1 = clear_line keys 17 1 h0 in
    let h2 = clear_line keys 18 2 h1 in
    let high = clear_line keys k_mask_dial_a 3 h2 in u8 (bit_or (high * 16) (bit_and low 0x0f))
