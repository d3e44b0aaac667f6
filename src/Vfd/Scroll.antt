-- ===== src/Vfd/Scroll.antt =====
-- The scrolling of the text.
use coin_line_emu.Base.{
  ℕ, zero, suc, ◌+◌, ◌-◌, ◌*◌, ◌<◌, ◌≤◌, ◌≡◌, ◌∙◌, ap, sym, refl, inl, inr, ◌&&◌, List, arith, ltb,
  min, ltb→lt, ◌==◌, if◌then◌else◌, length, get_or, set, Bool-cases, get_or-set_ne, get_or-set_self,
}
use coin_line_emu.Vfd.{Profile, Vfd}
use coin_line_emu.Vfd.Dots.{for_below, rebuild_all}
use coin_line_emu.Vfd.Read.{index_below, index_apart}
use coin_line_emu.Vfd.Agree.{cell_at}
use coin_line_emu.Vfd.Grid.{IsGrid, cell_count, length-copy_rows, length-for_set}
use coin_line_emu.Vfd.Motion.{
  copy_row, copy_rows, blank_row, scroll_up, line_feed, try_finalize_m6, mark_decoded_command,
}

module _ (p : Profile) (row col : ℕ) (hrow : row < p.rows) (hcol : col < p.columns) where
  -- Setting one cell, read in a cell.
  get_or-set_cell :
      (cells : List ℕ) (r c value : ℕ)
      → c < p.columns
      → length cells ≡ cell_count p
      → get_or (set cells (cell_at p r c) value) (cell_at p row col) 0
        ≡ (if row == r && col == c then value else get_or cells (cell_at p row col) 0)
  get_or-set_cell cells r c value hc size = elim (Bool-cases (row == r && col == c)) [
    | inl here ↦
        let at_row : row ≡ r = ground (arith, here) in
        let at_col : col ≡ c = ground (arith, here) in
        let place : cell_at p r c ≡ cell_at p row col =
          ap (λ (t : ℕ). cell_at p t c) (sym at_row)
          ∙ ap (λ (t : ℕ). cell_at p row t) (sym at_col) in
        let own =
          get_or-set_self cells (cell_at p row col) value 0
            (omega (arith, size, index_below p.rows p.columns row col hrow hcol)) in
        let moved = ap (λ (t : ℕ). get_or (set cells t value) (cell_at p row col) 0) place ∙ own in
        ground (arith, moved, here)
    | inr other ↦
        let kept =
          get_or-set_ne cells (cell_at p r c) (cell_at p row col) value 0
            (index_apart p.columns r row c col hc hcol (ground (arith, other))) in
        ground (arith, kept, other)
  ]

  length-copy_row : (r n : ℕ) (cells : List ℕ) → length (copy_row p r n cells) ≡ length cells
  unfolding copy_row
  length-copy_row r n cells =
      length-for_set n (λ c. r * p.columns + c) (λ c cs. get_or cs ((r + 1) * p.columns + c) 0)
        cells

  length-blank_row : (r n : ℕ) (cells : List ℕ) → length (blank_row p r n cells) ≡ length cells
  unfolding blank_row
  length-blank_row r n cells = length-for_set n (λ c. r * p.columns + c) (λ c cs. b' ') cells

  get_or-blank_row :
      (r n : ℕ) (cells : List ℕ)
      → n ≤ p.columns
      → length cells ≡ cell_count p
      → get_or (blank_row p r n cells) (cell_at p row col) 0
        ≡ (if row == r && ltb col n then b' ' else get_or cells (cell_at p row col) 0)
  unfolding blank_row for_below
  get_or-blank_row r zero cells hn size = ground arith
  get_or-blank_row r (suc n) cells hn size =
      let before = get_or-blank_row r n cells (omega arith) size in
      let last =
        get_or-set_cell (blank_row p r n cells) r n b' ' (omega arith)
          (length-blank_row r n cells ∙ size) in
      ground (arith, before, last)

module _ (p : Profile) where
  -- A row takes the characters of the row below it, and the other rows keep theirs.
  get_or-copy_row :
      (r n : ℕ) (cells : List ℕ) (row col : ℕ)
      → n ≤ p.columns
      → suc r < p.rows
      → length cells ≡ cell_count p
      → row < p.rows
      → col < p.columns
      → get_or (copy_row p r n cells) (cell_at p row col) 0 ≡ (
          if row == r && ltb col n
          then get_or cells (cell_at p (suc r) col) 0
          else get_or cells (cell_at p row col) 0)
  unfolding copy_row for_below
  get_or-copy_row r zero cells row col hn hr size hrow hcol = ground arith
  get_or-copy_row r (suc n) cells row col hn hr size hrow hcol =
      let before = get_or-copy_row r n cells row col (omega arith) hr size hrow hcol in
      let source = get_or-copy_row r n cells (suc r) n (omega arith) hr size hr (omega arith) in
      let below : cell_at p (r + 1) n ≡ cell_at p (suc r) n =
        ap (λ (t : ℕ). cell_at p t n) (omega arith) in
      let read = ap (λ (t : ℕ). get_or (copy_row p r n cells) t 0) below in
      let last =
        get_or-set_cell p row col hrow hcol (copy_row p r n cells) r n
          (get_or (copy_row p r n cells) (cell_at p (r + 1) n) 0) (omega arith)
          (length-copy_row p row col hrow hcol r n cells ∙ size) in
      let named = λ (e : col ≡ n). ap (λ (t : ℕ). get_or cells (cell_at p (suc r) t) 0) e in
      ground (arith, before, source, read, last, named)

  get_or-copy_rows :
      (n : ℕ) (cells : List ℕ) (row col : ℕ)
      → n < p.rows
      → length cells ≡ cell_count p
      → row < p.rows
      → col < p.columns
      → get_or (copy_rows p n cells) (cell_at p row col) 0 ≡ (
          if ltb row n
          then get_or cells (cell_at p (suc row) col) 0
          else get_or cells (cell_at p row col) 0)
  unfolding copy_rows for_below
  get_or-copy_rows zero cells row col hn size hrow hcol = ground arith
  get_or-copy_rows (suc n) cells row col hn size hrow hcol =
      let before = get_or-copy_rows n cells row col (omega arith) size hrow hcol in
      let source = get_or-copy_rows n cells (suc n) col (omega arith) size hn hcol in
      let last =
        get_or-copy_row n p.columns (copy_rows p n cells) row col (omega arith) hn
          (length-copy_rows p n cells ∙ size) hrow hcol in
      let named = λ (e : row ≡ n). ap (λ (t : ℕ). get_or cells (cell_at p (suc t) col) 0) e in
      ground (arith, before, source, last, named)

-- A line feed keeps the cursor's column and moves the cursor down by one row, but not below the last
-- row. On a row before the last, every cell keeps its character; on the last row, each row takes the
-- characters of the row below it, and the last row becomes blank.
pub line_feed-moves :
    (font : ℕ → List ℕ) (v : Vfd) (row col : ℕ)
    → IsGrid v.profile v.panel
    → row < v.profile.rows
    → col < v.profile.columns
    → let p = v.profile in
      let s = v.panel in
      let t = (line_feed font v).panel in
      (t.cursor_row ≡ min (s.cursor_row + 1) (p.rows - 1))
      × (t.cursor_col ≡ s.cursor_col)
      × (get_or t.cells (cell_at p row col) 0 ≡ (
          if ltb (s.cursor_row + 1) p.rows
          then get_or s.cells (cell_at p row col) 0
          else if row == p.rows - 1
          then b' '
          else get_or s.cells (cell_at p (row + 1) col) 0))
unfolding line_feed scroll_up rebuild_all try_finalize_m6 mark_decoded_command
line_feed-moves font v row col g hrow hcol =
    let p = v.profile in
    let s = v.panel in
    let last = p.rows - 1 in
    let moved = copy_rows p last s.cells in
    let up = get_or-copy_rows p last s.cells row col (omega (arith, hrow)) g.cells_size hrow hcol in
    let blank =
      get_or-blank_row p row col hrow hcol last p.columns moved (omega arith)
        (length-copy_rows p last s.cells ∙ g.cells_size) in
    let next : cell_at p (row + 1) col ≡ cell_at p (suc row) col =
      ap (λ (t : ℕ). cell_at p t col) (omega arith) in
    let read = ap (λ (t : ℕ). get_or s.cells t 0) next in
    elim (Bool-cases (ltb (s.cursor_row + 1) p.rows)) [
      | inl fits ↦ rw fits (omega (arith, ltb→lt _ _ fits), refl, refl)
      | inr bottom ↦
          rw bottom
            (ground (arith, bottom, g.row_in), refl, ground (arith, up, blank, read, hrow, hcol))
    ]
