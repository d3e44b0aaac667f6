-- ===== src/Vfd/Changes.antt =====
-- The dots against the characters while a character is written, marked or defined.
use coin_line_emu.Base.{
  ℕ, zero, suc, ◌+◌, ◌-◌, ◌*◌, ◌<◌, ◌≤◌, ◌≡◌, ◌≢◌, ◌∙◌, ap, sym, subst, refl, inl, inr, Bool, true,
  false, ◌&&◌, not, List, arith, ltb, ◌==◌, if◌then◌else◌, get_or, set, length, both_branches,
  Bool-cases, get_or-set_ne, ==→eq,
}
use coin_line_emu.Vfd.{Profile, Panel, zeros}
use coin_line_emu.Vfd.Dots.{for_below, rebuild_cell_dots, rebuild_row, glyph_of}
use coin_line_emu.Vfd.Read.{index_apart}
use coin_line_emu.Vfd.Agree.{cell_at, lit, ShowsCell}
use coin_line_emu.Vfd.Rebuild.{
  rebuild_cell_dots-ShowsCell, rebuild_cell_dots-keeps, rebuild_row-keeps, rebuild_row-draws,
  rebuild_rows-keeps, rebuild_rows-draws,
}
use coin_line_emu.Vfd.Grid.{IsGrid}
use coin_line_emu.Vfd.Shows.{Shows, SameCell, ShowsCell-SameCell}
use coin_line_emu.Vfd.Glyph.{
  cell_index, shift_left, push_right, put_here, with_mark, set_mark, with_glyph, holds,
  define_glyph,
}

module _ (font : ℕ → List ℕ) (p : Profile) (s : Panel) (g : IsGrid p s)
    (shown : Shows font p s) where
  -- The cell of the cursor is drawn, and the other cells are as they were.
  redraw_here-Shows :
      (t : Panel)
      → ((row col : ℕ)
          → row < p.rows
          → col < p.columns
          → (s.cursor_row == row && s.cursor_col == col) ≡ false
          → SameCell font p s t row col)
      → Shows font p (record t {
        dot_plane = rebuild_cell_dots font p t s.cursor_row s.cursor_col s.dot_plane;
      })
  unfolding Shows ShowsCell lit glyph_of
  redraw_here-Shows t same row col hrow hcol =
      elim (Bool-cases (s.cursor_row == row && s.cursor_col == col)) [
        | inl here ↦
            let at_row : s.cursor_row ≡ row = ground (arith, here) in
            let at_col : s.cursor_col ≡ col = ground (arith, here) in
            let drawn =
              rebuild_cell_dots-ShowsCell font p t s.cursor_row s.cursor_col s.dot_plane g.row_in
                g.col_in g.dots_size in
            subst
              (λ (k : ℕ).
                ShowsCell font p t
                  (rebuild_cell_dots font p t s.cursor_row s.cursor_col s.dot_plane) row k)
              at_col
              (subst
                (λ (k : ℕ).
                  ShowsCell font p t
                    (rebuild_cell_dots font p t s.cursor_row s.cursor_col s.dot_plane) k
                    s.cursor_col)
                at_row drawn)
        | inr other ↦
            rebuild_cell_dots-keeps font p t s.cursor_row s.cursor_col s.dot_plane row col hrow hcol
              g.dots_size
              (ShowsCell-SameCell font p s t s.dot_plane row col (same row col hrow hcol other)
                (shown row col hrow hcol))
      ]

  -- What is set in the cell of the cursor is not read in another cell.
  set_here_other :
      (xs : List ℕ) (value row col : ℕ)
      → col < p.columns
      → (s.cursor_row == row && s.cursor_col == col) ≡ false
      → get_or xs (cell_at p row col) 0
        ≡ get_or (set xs (cell_index p s) value) (cell_at p row col) 0
  set_here_other xs value row col hcol other = sym (
      get_or-set_ne xs (cell_index p s) (cell_at p row col) value 0
        (index_apart p.columns s.cursor_row row s.cursor_col col g.col_in hcol other))

  pub put_here-Shows : (b : ℕ) → Shows font p (put_here font p b s)
  unfolding put_here glyph_of
  put_here-Shows b =
      redraw_here-Shows (record s { cells = set s.cells (cell_index p s) b })
        (λ row col hrow hcol other. record {
          glyph = ap (glyph_of font s) (set_here_other s.cells b row col hcol other);
          decimal = refl;
          comma = refl;
          arrow = refl;
        })

  pub set_mark-Shows : (b : ℕ) → Shows font p (set_mark font p b s)
  unfolding set_mark glyph_of
  set_mark-Shows b =
      let i = cell_index p s in
      let unread =
        λ (test : Bool) (xs : List ℕ) (j : ℕ) (h : get_or xs j 0 ≡ get_or (set xs i 1) j 0).
          both_branches (λ (ys : List ℕ). get_or xs j 0 ≡ get_or ys j 0) test (set xs i 1) xs h
            refl in
      both_branches (λ (t : Panel). Shows font p t) (ltb i (length s.decimal_point)) _ s
        (redraw_here-Shows (with_mark p b s) (λ row col hrow hcol other. record {
          glyph = refl;
          decimal = refl;
          comma =
              unread (b == 0x18) s.comma_tail (cell_at p row col)
                (set_here_other s.comma_tail 1 row col hcol other);
          arrow =
              unread (b == 0x19 && s.cursor_row == p.rows - 1) s.arrow_mark (cell_at p row col)
                (set_here_other s.arrow_mark 1 row col hcol other);
        }))
        shown

  -- Cells of other rows are not changed by the shift of a row.
  get_or-shift_left :
      (row row' col n : ℕ) (cells : List ℕ)
      → n ≤ p.columns
      → col < p.columns
      → (row == row') ≡ false
      → get_or cells (cell_at p row' col) 0
        ≡ get_or (shift_left p row n cells) (cell_at p row' col) 0
  unfolding shift_left for_below
  get_or-shift_left row row' col zero cells hn hcol other = refl
  get_or-shift_left row row' col (suc n) cells hn hcol other =
      get_or-shift_left row row' col n cells (omega arith) hcol other
      ∙ sym (
          get_or-set_ne (shift_left p row n cells) (row * p.columns + n) (cell_at p row' col) _ 0
            (index_apart p.columns row row' n col (omega arith) hcol (ground (arith, other))))

  pub push_right-Shows : (b : ℕ) → Shows font p (push_right font p b s)
  unfolding push_right Shows ShowsCell lit glyph_of
  push_right-Shows b row col hrow hcol =
      let last = p.columns - 1 in
      let moved = shift_left p s.cursor_row last s.cells in
      let t : Panel = record s { cells = set moved (s.cursor_row * p.columns + last) b } in
      elim (Bool-cases (s.cursor_row == row)) [
        | inl here ↦
            subst
              (λ (k : ℕ).
                ShowsCell font p t
                  (rebuild_row font p t (λ r c. true) s.cursor_row p.columns s.dot_plane) k col)
              (==→eq s.cursor_row row here)
              (rebuild_row-draws font p t (λ r c. true) s.cursor_row col g.row_in hcol p.columns
                s.dot_plane hcol refl g.dots_size)
        | inr other ↦
            let kept =
              get_or-shift_left s.cursor_row row col last s.cells (omega arith) hcol other in
            let unset =
              get_or-set_ne moved (s.cursor_row * p.columns + last) (cell_at p row col) b 0 (
                index_apart p.columns s.cursor_row row last col (omega (arith, hcol)) hcol
                  (ground (arith, other))) in
            let same : SameCell font p s t row col = record {
              glyph = ap (glyph_of font s) (kept ∙ sym unset);
              decimal = refl;
              comma = refl;
              arrow = refl;
            } in
            rebuild_row-keeps font p t (λ r c. true) row col hrow hcol s.cursor_row p.columns
              s.dot_plane g.dots_size
              (ShowsCell-SameCell font p s t s.dot_plane row col same (shown row col hrow hcol))
      ]

  -- A definition of another character changes nothing for this one.
  glyph_of-with_glyph :
      (args : List ℕ) (ch : ℕ)
      → (ch == get_or args 0 0) ≡ false
      → glyph_of font s ch ≡ glyph_of font (with_glyph args s) ch
  unfolding glyph_of
  glyph_of-with_glyph args ch other =
      let code = get_or args 0 0 in
      let apart : code ≢ ch = λ e. ground (arith, other, e) in
      let valid = get_or-set_ne s.user_glyph_valid code ch 1 0 apart in
      let shape = get_or-set_ne s.user_glyph code ch _ (zeros 5) apart in
      ap (λ (k : ℕ). if not (k == 0) then get_or s.user_glyph ch (zeros 5) else font ch) (sym valid)
      ∙ ap
          (λ (k : List ℕ).
            if not (get_or (with_glyph args s).user_glyph_valid ch 0 == 0) then k else font ch)
          (sym shape)

  pub define_glyph-Shows : (args : List ℕ) → Shows font p (define_glyph font p args s)
  unfolding define_glyph Shows ShowsCell lit glyph_of
  define_glyph-Shows args row col hrow hcol =
      let t = with_glyph args s in
      let code = get_or args 0 0 in
      elim (Bool-cases (holds p t code row col)) [
        | inl wanted ↦
            rebuild_rows-draws font p t (holds p t code) row col hrow hcol p.rows s.dot_plane hrow
              wanted g.dots_size
        | inr other ↦
            let same : SameCell font p s t row col = record {
              glyph = glyph_of-with_glyph args (get_or s.cells (cell_at p row col) 0) other;
              decimal = refl;
              comma = refl;
              arrow = refl;
            } in
            rebuild_rows-keeps font p t (holds p t code) row col hrow hcol p.rows s.dot_plane
              g.dots_size
              (ShowsCell-SameCell font p s t s.dot_plane row col same (shown row col hrow hcol))
      ]
