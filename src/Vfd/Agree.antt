-- ===== src/Vfd/Agree.antt =====
-- The dots of a cell against what is in the cell.
use coin_line_emu.Base.{
  ℕ, ◌+◌, ◌-◌, ◌*◌, ◌<◌, ◌≡◌, ◌∙◌, ap, refl, Bool, true, false, ◌&&◌, ◌||◌, List, arith, ltb, leb,
  ◌==◌, if◌then◌else◌, get_or, length, bit_of, [], ◌∷◌, All,
}
use coin_line_emu.Vfd.{Profile, Panel}
use coin_line_emu.Vfd.Dots.{
  draw_block, Mark, cell_marks, marks_of, glyph_of, glyph_dot, has_arrow, is_set, cell_dots,
}
use coin_line_emu.Vfd.Read.{
  dot, plane_size, length-draw_block, length-mark_dots, dot-draw_block, dot-mark_dots, lit_by,
}

abbrev pub cell_at : Profile → ℕ → ℕ → ℕ
cell_at p row col = row * p.columns + col

-- The dots that the marks of a cell light.
abbrev marks_lit : Profile → Panel → ℕ → ℕ → ℕ → ℕ → Bool
marks_lit p s row i ry cx =
    (is_set s.decimal_point i && ry == 6 && cx == 4)
    || (is_set s.comma_tail i && ((ry == 6 && cx == 4) || (ry == 5 && cx == 3)))
    || (has_arrow p s row i && ((ry == 3 && cx == 4) || (cx == 3 && (ry == 2 || ry == 4))))

-- Whether a dot of a cell is lit: by the glyph of the character there, or by a mark.
unfoldable pub lit : (ℕ → List ℕ) → Profile → Panel → ℕ → ℕ → ℕ → ℕ → Bool
lit font p s row col ry cx =
    let i = cell_at p row col in
    glyph_dot (glyph_of font s (get_or s.cells i 0)) ry cx || marks_lit p s row i ry cx

-- In a plane, the dots of a cell are those of the cell's glyph and marks.
unfoldable pub ShowsCell : (ℕ → List ℕ) → Profile → Panel → List ℕ → ℕ → ℕ → Type 0
ShowsCell font p s dots row col =
    (ry cx : ℕ)
    → ry < 7
    → cx < 5
    → dot p dots (row * 7 + ry) (col * 5 + cx) ≡ bit_of (lit font p s row col ry cx)

-- The marks of a cell do not depend on where it stands.
lit_by_shift :
    (ms : List Mark) (y x ry cx : ℕ) → lit_by ms y x (y + ry) (x + cx) ≡ lit_by ms 0 0 ry cx
lit_by_shift [] y x ry cx = refl
lit_by_shift (m ∷ ms) y x ry cx = ground (arith, lit_by_shift ms y x ry cx)

abbrev IsInside : Mark → Type 0
IsInside m = m.ry < 7 × m.cx < 5

-- Whether a dot of the plane is in the cell at a place.
abbrev in_cell : ℕ → ℕ → ℕ → ℕ → Bool
in_cell y x r c = leb y r && ltb r (y + 7) && leb x c && ltb c (x + 5)

lit_by_outside :
    (ms : List Mark) (y x r c : ℕ)
    → All IsInside ms
    → in_cell y x r c ≡ false
    → lit_by ms y x r c ≡ false
lit_by_outside [] y x r c all h = refl
lit_by_outside (m ∷ ms) y x r c all h =
    let small = all.0 in ground (arith, small.0, small.1, lit_by_outside ms y x r c all.1 h)

marks_of-IsInside : (p : Profile) (s : Panel) (row i : ℕ) → All IsInside (marks_of p s row i)
marks_of-IsInside p s row i =
    let far : 6 < 7 × 4 < 5 = (omega arith, omega arith) in
    let near : 5 < 7 × 3 < 5 = (omega arith, omega arith) in
    let tip : 3 < 7 × 4 < 5 = (omega arith, omega arith) in
    let above : 2 < 7 × 3 < 5 = (omega arith, omega arith) in
    let below : 4 < 7 × 3 < 5 = (omega arith, omega arith) in
    (far, (far, (near, (tip, (above, (below, tt))))))

marks_of-lit :
    (p : Profile) (s : Panel) (row i ry cx : ℕ)
    → lit_by (marks_of p s row i) 0 0 ry cx ≡ marks_lit p s row i ry cx
marks_of-lit p s row i ry cx =
    regroup (is_set s.decimal_point i) (is_set s.comma_tail i) (has_arrow p s row i)
  where
    regroup :
        (d k a : Bool)
        → lit_by (cell_marks d k a) 0 0 ry cx ≡ (
            (d && ry == 6 && cx == 4)
            || (k && ((ry == 6 && cx == 4) || (ry == 5 && cx == 3)))
            || (a && ((ry == 3 && cx == 4) || (cx == 3 && (ry == 2 || ry == 4)))))
    regroup d k a = ground arith

-- A dot of another cell is not in this one.
other_outside :
    (row col row' col' ry cx : ℕ)
    → ry < 7
    → cx < 5
    → (row == row' && col == col') ≡ false
    → in_cell (row * 7) (col * 5) (row' * 7 + ry) (col' * 5 + cx) ≡ false
other_outside row col row' col' ry cx hry hcx differ = ground arith

inside : (y x ry cx : ℕ) → ry < 7 → cx < 5 → in_cell y x (y + ry) (x + cx) ≡ true
inside y x ry cx hry hcx = ground arith

one_or_glyph :
    {marked marked' within glyph glyph' : Bool} (old : ℕ)
    → marked ≡ marked'
    → within ≡ true
    → glyph ≡ glyph'
    → (if marked then 1 else if within then bit_of glyph else old) ≡ bit_of (glyph' || marked')
one_or_glyph {marked} {marked'} {within} {glyph} {glyph'} old hm hw hg = ground arith

neither :
    {marked within : Bool} (glyph : Bool) (old : ℕ)
    → marked ≡ false
    → within ≡ false
    → (if marked then 1 else if within then bit_of glyph else old) ≡ old
neither {marked} {within} glyph old hm hw = ground arith

module _ (font : ℕ → List ℕ) (p : Profile) (s : Panel) (row col : ℕ) (dots : List ℕ) where
  abbrev glyph_here : ℕ → ℕ → Bool
  glyph_here = glyph_dot (glyph_of font s (get_or s.cells (cell_at p row col) 0))

  length-glyph_here : length (draw_block p (row * 7) (col * 5) glyph_here 7 dots) ≡ length dots
  length-glyph_here = length-draw_block p (row * 7) (col * 5) glyph_here 7 dots

  pub length-cell_dots : length (cell_dots font p s row col dots) ≡ length dots
  unfolding cell_dots
  length-cell_dots =
      length-mark_dots p (row * 7) (col * 5) (marks_of p s row (cell_at p row col)) _
      ∙ length-glyph_here

  -- A dot of the plane after the cell is drawn.
  abbrev drawn : ℕ → ℕ → ℕ
  drawn r c =
      if lit_by (marks_of p s row (cell_at p row col)) (row * 7) (col * 5) r c
      then 1
      else if in_cell (row * 7) (col * 5) r c
      then bit_of (glyph_here (r - row * 7) (c - col * 5))
      else dot p dots r c

  dot-cell_dots :
      (r c : ℕ)
      → r < p.rows * 7
      → c < p.columns * 5
      → length dots ≡ plane_size p
      → dot p (cell_dots font p s row col dots) r c ≡ drawn r c
  unfolding cell_dots
  dot-cell_dots r c hr hc size =
      let block = draw_block p (row * 7) (col * 5) glyph_here 7 dots in
      let marked =
        dot-mark_dots p r c hr hc (row * 7) (col * 5) (marks_of p s row (cell_at p row col)) block
          (length-glyph_here ∙ size) in
      let inner = dot-draw_block p r c hr hc (row * 7) (col * 5) glyph_here 7 dots size in
      marked
      ∙ ap
          (λ (t : ℕ).
            if lit_by (marks_of p s row (cell_at p row col)) (row * 7) (col * 5) r c then 1 else t)
          inner

  -- Drawing a cell makes the cell's dots those of its glyph and marks.
  pub cell_dots-lit :
      (ry cx : ℕ)
      → row < p.rows
      → col < p.columns
      → ry < 7
      → cx < 5
      → length dots ≡ plane_size p
      → dot p (cell_dots font p s row col dots) (row * 7 + ry) (col * 5 + cx)
        ≡ bit_of (lit font p s row col ry cx)
  unfolding lit
  cell_dots-lit ry cx hrow hcol hry hcx size =
      let read = dot-cell_dots (row * 7 + ry) (col * 5 + cx) (omega arith) (omega arith) size in
      let down : row * 7 + ry - row * 7 ≡ ry = omega arith in
      let across : col * 5 + cx - col * 5 ≡ cx = omega arith in
      let same : glyph_here (row * 7 + ry - row * 7) (col * 5 + cx - col * 5) ≡ glyph_here ry cx =
        ap (λ (t : ℕ). glyph_here t (col * 5 + cx - col * 5)) down
        ∙ ap (λ (t : ℕ). glyph_here ry t) across in
      let marks = marks_of p s row (cell_at p row col) in
      let shift =
        lit_by_shift marks (row * 7) (col * 5) ry cx
        ∙ marks_of-lit p s row (cell_at p row col) ry cx in
      let within = inside (row * 7) (col * 5) ry cx hry hcx in
      read ∙ one_or_glyph _ shift within same

  -- Drawing a cell leaves the dots of the other cells.
  pub cell_dots-other :
      (row' col' ry cx : ℕ)
      → row' < p.rows
      → col' < p.columns
      → ry < 7
      → cx < 5
      → (row == row' && col == col') ≡ false
      → length dots ≡ plane_size p
      → dot p (cell_dots font p s row col dots) (row' * 7 + ry) (col' * 5 + cx)
        ≡ dot p dots (row' * 7 + ry) (col' * 5 + cx)
  cell_dots-other row' col' ry cx hrow hcol hry hcx differ size =
      let read = dot-cell_dots (row' * 7 + ry) (col' * 5 + cx) (omega arith) (omega arith) size in
      let out = other_outside row col row' col' ry cx hry hcx differ in
      let marks = marks_of p s row (cell_at p row col) in
      let dark =
        lit_by_outside marks (row * 7) (col * 5) (row' * 7 + ry) (col' * 5 + cx)
          (marks_of-IsInside p s row (cell_at p row col)) out in
      read ∙ neither _ _ dark out
