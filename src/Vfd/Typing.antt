-- ===== src/Vfd/Typing.antt =====
-- A character that is written to the display.
use coin_line_emu.Base.{
  ℕ, suc, ◌+◌, ◌*◌, ◌<◌, ◌≤◌, ◌≡◌, ◌∙◌, ap, refl, inl, inr, true, false, ◌||◌, List, arith, ltb,
  leb, length, set, if_cases, both_branches, Bool-cases, length-set,
}
use coin_line_emu.Vfd.{Profile, Panel, Vfd, Mode, set_busy}
use coin_line_emu.Vfd.Motion.{try_finalize_m6}
use coin_line_emu.Vfd.Glyph.{cell_index, glyph_panel, write_glyph_byte, advance, put_here}
use coin_line_emu.Vfd.Write.{
  append_raw, handle_character, handle_normal, write_data_byte, write, logged, handle_data,
}

-- The display writes from left to right, and its cursor is in the cell with an index.
pub record IsTyping (v : Vfd) (k : ℕ) : Type 0 where
  pub normal_mode : v.mode ≡ Mode.normal
  pub forward : v.increment_write_mode ≡ true
  pub still : v.horizontal_scroll_mode ≡ false
  pub wraps : v.vertical_scroll_mode ≡ false
  pub row_in : v.panel.cursor_row < v.profile.rows
  pub col_in : v.panel.cursor_col < v.profile.columns
  pub here : cell_index v.profile v.panel ≡ k
  pub size : length v.panel.cells ≡ v.profile.rows * v.profile.columns

-- A panel whose cursor is in the cell with the next index, with the same cells.
record IsNext (p : Profile) (s t : Panel) : Type 0 where
  row_in : t.cursor_row < p.rows
  col_in : t.cursor_col < p.columns
  next : cell_index p t ≡ suc (cell_index p s)
  cells_kept : t.cells ≡ s.cells

-- The last column of the last row is the last cell.
last_cell :
    (rows columns row col : ℕ)
    → suc (row * columns + col) < rows * columns
    → row < rows
    → ltb (col + 1) columns ≡ false
    → suc row < rows
last_cell rows columns row col more hr full = elim (Bool-cases (ltb (suc row) rows)) [
  | inl fits ↦ ground (arith, fits)
  | inr last ↦
      let bottom : suc row ≡ rows = ground (arith, last) in
      let all : suc row * columns ≡ rows * columns = ap (λ (t : ℕ). t * columns) bottom in
      let split : suc row * columns ≡ row * columns + columns = omega arith in
      absurd (ground (arith, all, split, full))
]

module _ (font : ℕ → List ℕ) where
  advance-IsNext :
      (p : Profile) (s : Panel)
      → s.cursor_row < p.rows
      → s.cursor_col < p.columns
      → suc (cell_index p s) < p.rows * p.columns
      → IsNext p s (advance font p false s)
  unfolding advance
  advance-IsNext p s hr hc more =
      let P = λ (t : Panel). IsNext p s t in
      if_cases P (ltb (s.cursor_col + 1) p.columns) _ _
        (λ fits. record {
          row_in = hr;
          col_in = ground (arith, fits);
          next = omega arith;
          cells_kept = refl;
        })
        (λ full.
          let below = last_cell p.rows p.columns s.cursor_row s.cursor_col more hr full in
          if_cases P (ltb (s.cursor_row + 1) p.rows) _ _
            (λ fits. record {
              row_in = ground (arith, fits);
              col_in = omega (arith, hc);
              next =
                  let split : (s.cursor_row + 1) * p.columns
                      ≡ s.cursor_row * p.columns + p.columns =
                    omega arith in
                  ground (arith, split, full, hc);
              cells_kept = refl;
            })
            (λ bottom. absurd (ground (arith, below, bottom))))

  -- The panel after one character.
  unfoldable pub typed_panel : (v : Vfd) (b : ℕ) → Panel
  typed_panel v b = advance font v.profile false (put_here font v.profile b v.panel)

  -- A printable byte is a character.
  handle_normal-printable :
      (cycle b : ℕ) (v : Vfd)
      → 0x20 ≤ b
      → handle_normal font cycle b v ≡ set_busy cycle 0 (write_glyph_byte font b v)
  unfolding handle_normal handle_character
  handle_normal-printable cycle b v printable = ground arith

  write_glyph_byte-typed :
      (v : Vfd) (k b : ℕ)
      → IsTyping v k
      → write_glyph_byte font b v
        ≡ try_finalize_m6 (record v { panel = typed_panel v b; saw_printable_data = true })
  unfolding write_glyph_byte glyph_panel typed_panel
  write_glyph_byte-typed v k b t =
      let inside : (leb v.profile.rows v.panel.cursor_row
            || leb v.profile.columns v.panel.cursor_col)
          ≡ false =
        ground (arith, t.row_in, t.col_in) in
      rw (inside, t.still, t.forward, t.wraps) refl

  logged-IsTyping : (v : Vfd) (k b : ℕ) → IsTyping v k → IsTyping (logged b v) k
  unfolding append_raw
  logged-IsTyping v k b t = record {
    normal_mode = t.normal_mode;
    forward = t.forward;
    still = t.still;
    wraps = t.wraps;
    row_in = t.row_in;
    col_in = t.col_in;
    here = t.here;
    size = t.size;
  }

  -- The display after one character.
  abbrev pub typed : ℕ → ℕ → Vfd → Vfd
  typed cycle b v =
      let w = logged b v in
      set_busy cycle 0
        (try_finalize_m6 (record w { panel = typed_panel w b; saw_printable_data = true }))

  pub write-typed :
      (v : Vfd) (k b cycle : ℕ) → IsTyping v k → 0x20 ≤ b → write font b cycle 0 v ≡ typed cycle b v
  unfolding write write_data_byte append_raw
  write-typed v k b cycle t printable =
      ap (λ (m : Mode). handle_data m font cycle b (logged b v)) t.normal_mode
      ∙ (handle_normal-printable cycle b (logged b v) printable
          ∙ ap (set_busy cycle 0)
              (write_glyph_byte-typed (logged b v) k b (logged-IsTyping v k b t)))

  pub typed-IsTyping :
      (v : Vfd) (k b cycle : ℕ)
      → IsTyping v k
      → suc k < length v.panel.cells
      → IsTyping (typed cycle b v) (suc k)
  unfolding set_busy try_finalize_m6 append_raw typed_panel put_here
  typed-IsTyping v k b cycle t more =
      let p = v.profile in
      let put : Panel = put_here font p b v.panel in
      let moved : IsNext p put (advance font p false put) =
        advance-IsNext p put t.row_in t.col_in (omega (arith, more, t.size, t.here)) in
      record {
        normal_mode = t.normal_mode;
        forward = t.forward;
        still = t.still;
        wraps = t.wraps;
        row_in = moved.row_in;
        col_in = moved.col_in;
        here = moved.next ∙ ap suc t.here;
        size =
            ap length moved.cells_kept
            ∙ (length-set v.panel.cells (cell_index p v.panel) b ∙ t.size);
      }

  advance-cells : (p : Profile) (s : Panel) → (advance font p false s).cells ≡ s.cells
  unfolding advance
  advance-cells p s =
      let P = λ (t : Panel). t.cells ≡ s.cells in
      both_branches P (ltb (s.cursor_col + 1) p.columns) _ _ refl
        (both_branches P (ltb (s.cursor_row + 1) p.rows) _ _ refl refl)

  pub typed-cells :
      (v : Vfd) (k b cycle : ℕ)
      → IsTyping v k
      → (typed cycle b v).panel.cells ≡ set v.panel.cells k b
  unfolding set_busy try_finalize_m6 append_raw typed_panel put_here
  typed-cells v k b cycle t =
      advance-cells v.profile (put_here font v.profile b v.panel)
      ∙ ap (λ (i : ℕ). set v.panel.cells i b) t.here
