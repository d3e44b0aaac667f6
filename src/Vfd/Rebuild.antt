-- ===== src/Vfd/Rebuild.antt =====
-- Drawing many cells.
use coin_line_emu.Base.{
  ℕ, zero, suc, ◌*◌, ◌+◌, ◌<◌, ◌≡◌, ◌∙◌, inl, inr, refl, Bool, true, ◌&&◌, ◌||◌, List, arith, leb,
  ◌==◌, ==→eq, if◌then◌else◌, sym, bit_of, length, both_branches, Bool-cases, subst,
}
use coin_line_emu.Vfd.{Profile, Panel}
use coin_line_emu.Vfd.Dots.{rebuild_cell_dots, rebuild_row, rebuild_rows, cell_dots, for_below}
use coin_line_emu.Vfd.Read.{plane_size, dot}
use coin_line_emu.Vfd.Agree.{ShowsCell, lit, length-cell_dots, cell_dots-lit, cell_dots-other}

module _ (font : ℕ → List ℕ) (p : Profile) (s : Panel) where
  -- A cell is shown after it is drawn.
  pub rebuild_cell_dots-ShowsCell :
      (row col : ℕ) (dots : List ℕ)
      → row < p.rows
      → col < p.columns
      → length dots ≡ plane_size p
      → ShowsCell font p s (rebuild_cell_dots font p s row col dots) row col
  unfolding ShowsCell rebuild_cell_dots
  rebuild_cell_dots-ShowsCell row col dots hrow hcol size ry cx hry hcx =
      let drawn = cell_dots-lit font p s row col dots ry cx hrow hcol hry hcx size in
      ground (arith, drawn)

  cell_dots-keeps :
      (row col : ℕ) (dots : List ℕ) (row' col' : ℕ)
      → row' < p.rows
      → col' < p.columns
      → length dots ≡ plane_size p
      → ShowsCell font p s dots row' col'
      → ShowsCell font p s (cell_dots font p s row col dots) row' col'
  unfolding ShowsCell
  cell_dots-keeps row col dots row' col' hrow hcol size shown ry cx hry hcx =
      elim (Bool-cases (row == row' && col == col')) [
        | inl same ↦
            let at_row : row ≡ row' = ground (arith, same) in
            let at_col : col ≡ col' = ground (arith, same) in
            subst
              (λ (t : ℕ).
                dot p (cell_dots font p s t col dots) (row' * 7 + ry) (col' * 5 + cx)
                ≡ bit_of (lit font p s row' col' ry cx))
              (sym at_row)
              (subst
                (λ (t : ℕ).
                  dot p (cell_dots font p s row' t dots) (row' * 7 + ry) (col' * 5 + cx)
                  ≡ bit_of (lit font p s row' col' ry cx))
                (sym at_col) (cell_dots-lit font p s row' col' dots ry cx hrow hcol hry hcx size))
        | inr differ ↦
            cell_dots-other font p s row col dots row' col' ry cx hrow hcol hry hcx differ size
            ∙ shown ry cx hry hcx
      ]

  pub length-rebuild_cell_dots :
      (row col : ℕ) (dots : List ℕ) → length (rebuild_cell_dots font p s row col dots) ≡ length dots
  unfolding rebuild_cell_dots
  length-rebuild_cell_dots row col dots =
      both_branches (λ (ds : List ℕ). length ds ≡ length dots) (leb p.rows row || leb p.columns col)
        dots (cell_dots font p s row col dots) refl (length-cell_dots font p s row col dots)

  -- What was shown stays shown when a cell is drawn.
  pub rebuild_cell_dots-keeps :
      (row col : ℕ) (dots : List ℕ) (row' col' : ℕ)
      → row' < p.rows
      → col' < p.columns
      → length dots ≡ plane_size p
      → ShowsCell font p s dots row' col'
      → ShowsCell font p s (rebuild_cell_dots font p s row col dots) row' col'
  unfolding rebuild_cell_dots
  rebuild_cell_dots-keeps row col dots row' col' hrow hcol size shown =
      both_branches (λ (ds : List ℕ). ShowsCell font p s ds row' col')
        (leb p.rows row || leb p.columns col) dots (cell_dots font p s row col dots) shown
        (cell_dots-keeps row col dots row' col' hrow hcol size shown)

  module _ (wanted : ℕ → ℕ → Bool) where
    abbrev turn : ℕ → ℕ → List ℕ → List ℕ
    turn row col ds = if wanted row col then rebuild_cell_dots font p s row col ds else ds

    length-turn : (row col : ℕ) (ds : List ℕ) → length (turn row col ds) ≡ length ds
    length-turn row col ds =
        both_branches (λ (t : List ℕ). length t ≡ length ds) (wanted row col) _ ds
          (length-rebuild_cell_dots row col ds) refl

    pub length-rebuild_row :
        (row n : ℕ) (dots : List ℕ) → length (rebuild_row font p s wanted row n dots) ≡ length dots
    unfolding rebuild_row for_below
    length-rebuild_row row zero dots = refl
    length-rebuild_row row (suc n) dots =
        length-turn row n (rebuild_row font p s wanted row n dots) ∙ length-rebuild_row row n dots

    pub length-rebuild_rows :
        (n : ℕ) (dots : List ℕ) → length (rebuild_rows font p s wanted n dots) ≡ length dots
    unfolding rebuild_rows for_below
    length-rebuild_rows zero dots = refl
    length-rebuild_rows (suc n) dots =
        length-rebuild_row n p.columns (rebuild_rows font p s wanted n dots)
        ∙ length-rebuild_rows n dots

    module _ (row' col' : ℕ) (hrow : row' < p.rows) (hcol : col' < p.columns) where
      turn-keeps :
          (row col : ℕ) (ds : List ℕ)
          → length ds ≡ plane_size p
          → ShowsCell font p s ds row' col'
          → ShowsCell font p s (turn row col ds) row' col'
      turn-keeps row col ds size shown =
          both_branches (λ (t : List ℕ). ShowsCell font p s t row' col') (wanted row col) _ ds
            (rebuild_cell_dots-keeps row col ds row' col' hrow hcol size shown) shown

      pub rebuild_row-keeps :
          (row n : ℕ) (dots : List ℕ)
          → length dots ≡ plane_size p
          → ShowsCell font p s dots row' col'
          → ShowsCell font p s (rebuild_row font p s wanted row n dots) row' col'
      unfolding rebuild_row for_below
      rebuild_row-keeps row zero dots size shown = shown
      rebuild_row-keeps row (suc n) dots size shown =
          turn-keeps row n (rebuild_row font p s wanted row n dots)
            (length-rebuild_row row n dots ∙ size) (rebuild_row-keeps row n dots size shown)

      turn-draws :
          (ds : List ℕ)
          → wanted row' col' ≡ true
          → length ds ≡ plane_size p
          → ShowsCell font p s (turn row' col' ds) row' col'
      turn-draws ds want size =
          let drawn = rebuild_cell_dots-ShowsCell row' col' ds hrow hcol size in
          subst
            (λ (b : Bool).
              ShowsCell font p s (if b then rebuild_cell_dots font p s row' col' ds else ds) row'
                col')
            (sym want) drawn

      pub rebuild_row-draws :
          (n : ℕ) (dots : List ℕ)
          → col' < n
          → wanted row' col' ≡ true
          → length dots ≡ plane_size p
          → ShowsCell font p s (rebuild_row font p s wanted row' n dots) row' col'
      unfolding rebuild_row for_below
      rebuild_row-draws zero dots below want size = absurd (omega arith)
      rebuild_row-draws (suc n) dots below want size =
          let before = rebuild_row font p s wanted row' n dots in
          let size' = length-rebuild_row row' n dots ∙ size in
          elim (Bool-cases (col' == n)) [
            | inl last ↦
                subst (λ (t : ℕ). ShowsCell font p s (turn row' t before) row' col')
                  (==→eq col' n last) (turn-draws before want size')
            | inr earlier ↦
                turn-keeps row' n before size'
                  (rebuild_row-draws n dots (ground (arith, earlier)) want size)
          ]

      -- What was shown stays shown when rows of cells are drawn.
      pub rebuild_rows-keeps :
          (n : ℕ) (dots : List ℕ)
          → length dots ≡ plane_size p
          → ShowsCell font p s dots row' col'
          → ShowsCell font p s (rebuild_rows font p s wanted n dots) row' col'
      unfolding rebuild_rows for_below
      rebuild_rows-keeps zero dots size shown = shown
      rebuild_rows-keeps (suc n) dots size shown =
          rebuild_row-keeps n p.columns (rebuild_rows font p s wanted n dots)
            (length-rebuild_rows n dots ∙ size) (rebuild_rows-keeps n dots size shown)

      -- The cells that are wanted are shown when the rows are drawn.
      pub rebuild_rows-draws :
          (n : ℕ) (dots : List ℕ)
          → row' < n
          → wanted row' col' ≡ true
          → length dots ≡ plane_size p
          → ShowsCell font p s (rebuild_rows font p s wanted n dots) row' col'
      unfolding rebuild_rows for_below
      rebuild_rows-draws zero dots below want size = absurd (omega arith)
      rebuild_rows-draws (suc n) dots below want size =
          let before = rebuild_rows font p s wanted n dots in
          let size' = length-rebuild_rows n dots ∙ size in
          elim (Bool-cases (row' == n)) [
            | inl last ↦
                subst
                  (λ (t : ℕ).
                    ShowsCell font p s (rebuild_row font p s wanted t p.columns before) row' col')
                  (==→eq row' n last) (rebuild_row-draws p.columns before hcol want size')
            | inr earlier ↦
                rebuild_row-keeps n p.columns before size'
                  (rebuild_rows-draws n dots (ground (arith, earlier)) want size)
          ]
