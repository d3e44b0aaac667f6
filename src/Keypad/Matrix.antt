-- ===== src/Keypad/Matrix.antt =====
-- The row lines that a scan returns: which keys pull which line down.
use coin_line_emu.Base.Int.{ℤ, pos, negsuc}
use coin_line_emu.Base.Bits.{all_below, all_below_sound, tests-bit_and}
use coin_line_emu.Base.{
  ℕ, zero, suc, ◌+◌, ◌-◌, ◌<◌, ◌≤◌, ◌^◌, ◌≡◌, refl, sym, ◌∙◌, ap, Bool, true, false, not, ◌&&◌,
  ◌||◌, arith, ltb, leb, ◌==◌, if◌then◌else◌, tests, List, [], ◌∷◌,
}
use coin_line_emu.Keypad.{
  Keypad, pressed, clear_row, scan_rows, scan_columns, row_lines, active_column_from_port_b,
  first_set, read_port_a,
}

-- `b == c`, a table's entry.
abbrev same : Bool → Bool → Bool
same true b = b
same false b = not b

same→eq : (b c : Bool) → same b c ≡ true → b ≡ c
same→eq true c h = sym h
same→eq false c h = ground arith

mask_table : (row r : ℕ) → row < 4 → r < 4 → tests (255 - 2 ^ row) (2 ^ r) ≡ not (row == r)
unfolding all_below
mask_table row r hr h =
    let rows =
      all_below_sound 4 (λ i. all_below 4 (λ j. same (tests (255 - 2 ^ i) (2 ^ j)) (not (i == j))))
        row refl hr in
    same→eq (tests (255 - 2 ^ row) (2 ^ r)) (not (row == r))
      (all_below_sound 4 (λ j. same (tests (255 - 2 ^ row) (2 ^ j)) (not (row == j))) r rows h)

low_table : (r : ℕ) → r < 4 → tests 0x0f (2 ^ r) ≡ true
unfolding all_below
low_table r h = all_below_sound 4 (λ j. tests 0x0f (2 ^ j)) r refl h

tests-clear_row :
    (row r rows : ℕ)
    → row < 4
    → r < 4
    → tests (clear_row row rows) (2 ^ r) ≡ (tests rows (2 ^ r) && not (row == r))
tests-clear_row row r rows hr h =
    tests-bit_and r rows (255 - 2 ^ row) ∙ ap (λ b. tests rows (2 ^ r) && b) (mask_table row r hr h)

-- `row` stands before `r` or the loop from `row` reaches it.
tests-scan_rows :
    (keys col row left r rows : ℕ)
    → row + left ≤ 4
    → r < 4
    → tests (scan_rows keys col row left rows) (2 ^ r)
      ≡ (tests rows (2 ^ r) && not (leb row r && ltb r (row + left) && pressed keys r col))
unfolding scan_rows
tests-scan_rows keys col row zero r rows le h = ground arith
tests-scan_rows keys col row (suc left) r rows le h =
    let cleared = tests-clear_row row r rows (omega arith) h in
    let here : r ≡ row → pressed keys r col ≡ pressed keys row col =
      λ e. ap (λ (i : ℕ). pressed keys i col) e in
    let kept = tests-scan_rows keys col (row + 1) left r rows (omega arith) h in
    let down = tests-scan_rows keys col (row + 1) left r (clear_row row rows) (omega arith) h in
    ground (arith, cleared, here, kept, down)

-- A key of row `r` is pressed in one of the columns.
unfoldable pub any_pressed : ℕ → ℕ → List ℕ → Bool
any_pressed keys r [] = false
any_pressed keys r (col ∷ cols) = pressed keys r col || any_pressed keys r cols

-- The columns that a value of port B strobes: the first of the lines 4 to 7 that is low, else the
-- first of the lines 0 to 3, else all of them.
unfoldable pub strobed : ℕ → List ℕ
strobed pb =
    if not (tests pb 0x10)
    then 0 ∷ []
    else if not (tests pb 0x20)
    then 1 ∷ []
    else if not (tests pb 0x40)
    then 2 ∷ []
    else if not (tests pb 0x80)
    then 3 ∷ []
    else if not (tests pb 0x01)
    then 0 ∷ []
    else if not (tests pb 0x02)
    then 1 ∷ []
    else if not (tests pb 0x04)
    then 2 ∷ []
    else if not (tests pb 0x08)
    then 3 ∷ []
    else 0 ∷ 1 ∷ 2 ∷ 3 ∷ []

-- The columns behind the result of `active_column_from_port_b`.
abbrev columns_of : ℤ → List ℕ
columns_of (pos col) = if leb col 3 then col ∷ [] else 0 ∷ 1 ∷ 2 ∷ 3 ∷ []
columns_of (negsuc _) = 0 ∷ 1 ∷ 2 ∷ 3 ∷ []

abbrev list_eq : List ℕ → List ℕ → Bool
list_eq [] [] = true
list_eq (x ∷ xs) (y ∷ ys) = x == y && list_eq xs ys
list_eq _ _ = false

list_eq→eq : (xs ys : List ℕ) → list_eq xs ys ≡ true → xs ≡ ys
list_eq→eq [] [] h = refl
list_eq→eq [] (y ∷ ys) h = ground arith
list_eq→eq (x ∷ xs) [] h = ground arith
list_eq→eq (x ∷ xs) (y ∷ ys) h =
    let heads : x ≡ y = ground arith in
    let tails = list_eq→eq xs ys (ground arith) in ground (arith, heads, tails)

active_column-strobed : (pb : ℕ) → pb < 256 → columns_of (active_column_from_port_b pb) ≡ strobed pb
unfolding all_below active_column_from_port_b first_set strobed
active_column-strobed pb h = list_eq→eq (columns_of (active_column_from_port_b pb)) (strobed pb) (
    all_below_sound 256 (λ b. list_eq (columns_of (active_column_from_port_b b)) (strobed b)) pb
      refl h)

tests-scan_columns :
    (keys r rows : ℕ)
    → r < 4
    → tests (scan_columns keys 0 4 rows) (2 ^ r)
      ≡ (tests rows (2 ^ r) && not (any_pressed keys r (0 ∷ 1 ∷ 2 ∷ 3 ∷ [])))
unfolding scan_columns any_pressed
tests-scan_columns keys r rows h =
    let c0 = scan_rows keys 0 0 4 rows in
    let c1 = scan_rows keys 1 0 4 c0 in
    let c2 = scan_rows keys 2 0 4 c1 in
    ground (
      arith,
      tests-scan_rows keys 0 0 4 r rows (omega arith) h,
      tests-scan_rows keys 1 0 4 r c0 (omega arith) h,
      tests-scan_rows keys 2 0 4 r c1 (omega arith) h,
      tests-scan_rows keys 3 0 4 r c2 (omega arith) h,
    )

tests-row_lines :
    (keys r : ℕ) (active : ℤ)
    → r < 4
    → tests (row_lines keys active) (2 ^ r) ≡ not (any_pressed keys r (columns_of active))
unfolding row_lines any_pressed
tests-row_lines keys r (pos col) h = ground (
  arith,
  low_table r h,
  tests-scan_rows keys col 0 4 r 0x0f (omega arith) h,
  tests-scan_columns keys r 0x0f h,
)
tests-row_lines keys r (negsuc n) h =
    ground (arith, low_table r h, tests-scan_columns keys r 0x0f h)

-- For every value of port B and every row, the row's line in the byte that port A returns is low
-- exactly if a key of that row is pressed in a strobed column: the column of the first low line among
-- the lines 4 to 7 of port B, else of the first low line among the lines 0 to 3, else, when no line
-- is low, any column.
pub read_port_a-strobed :
    (keys cycle r : ℕ) (m : Keypad)
    → r < 4
    → m.port_b_latch < 256
    → tests (read_port_a keys cycle m).1 (2 ^ r) ≡ not (any_pressed keys r (strobed m.port_b_latch))
unfolding read_port_a
read_port_a-strobed keys cycle r m h byte =
    let active = active_column_from_port_b m.port_b_latch in
    let cols =
      ap (λ (cs : List ℕ). any_pressed keys r cs) (active_column-strobed m.port_b_latch byte) in
    ground (
      arith,
      cols,
      tests-row_lines keys r active h,
      tests-bit_and r (row_lines keys active) 0x0f,
      low_table r h,
    )
