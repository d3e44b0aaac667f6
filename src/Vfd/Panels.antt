-- ===== src/Vfd/Panels.antt =====
-- The invariant of the panel: sizes, cursor and dots.
use coin_line_emu.Base.{ℕ, ◌+◌, ◌<◌, ◌≡◌, Bool, List, arith, ltb, both_branches, if_true}
use coin_line_emu.Vfd.{Profile, Panel, zeros, blank_panel}
use coin_line_emu.Vfd.Grid.{
  IsGrid, blank_panel-IsGrid, move_to-IsGrid, cleared-IsGrid, scroll_up-IsGrid, push_right-IsGrid,
  put_here-IsGrid, retreat-IsGrid, define_glyph-IsGrid, set_mark-IsGrid,
}
use coin_line_emu.Vfd.Shows.{
  Shows, blank_panel-Shows, cleared-Shows, scroll_up-Shows, move_to-Shows, retreat-Shows,
}
use coin_line_emu.Vfd.Changes.{put_here-Shows, set_mark-Shows, push_right-Shows, define_glyph-Shows}
use coin_line_emu.Vfd.Motion.{cleared, move_to, scroll_up}
use coin_line_emu.Vfd.Glyph.{put_here, advance, retreat, push_right, set_mark, define_glyph}

-- The lists have the sizes of the display, the cursor is on it, and the dots agree with the cells.
pub record IsSoundPanel (font : ℕ → List ℕ) (p : Profile) (s : Panel) : Type 0 where
  pub grid : IsGrid p s
  pub shown : Shows font p s

module _ (font : ℕ → List ℕ) (blank : font b' ' ≡ zeros 5) (p : Profile) where
  pub move_to-IsSoundPanel :
      (s : Panel) (row col : ℕ)
      → IsSoundPanel font p s
      → row < p.rows
      → col < p.columns
      → IsSoundPanel font p (move_to row col s)
  move_to-IsSoundPanel s row col h hr hc = record {
    grid = move_to-IsGrid font p s h.grid row col hr hc;
    shown = move_to-Shows font p s row col h.shown;
  }

  pub cleared-IsSoundPanel : (s : Panel) → IsSoundPanel font p s → IsSoundPanel font p (cleared s)
  cleared-IsSoundPanel s h = record {
    grid = cleared-IsGrid font p s h.grid;
    shown = cleared-Shows font p s h.grid blank;
  }

  pub scroll_up-IsSoundPanel :
      (s : Panel) → IsSoundPanel font p s → IsSoundPanel font p (scroll_up font p s)
  scroll_up-IsSoundPanel s h = record {
    grid = scroll_up-IsGrid font p s h.grid;
    shown = scroll_up-Shows font p s h.grid;
  }

  pub put_here-IsSoundPanel :
      (s : Panel) (b : ℕ) → IsSoundPanel font p s → IsSoundPanel font p (put_here font p b s)
  put_here-IsSoundPanel s b h = record {
    grid = put_here-IsGrid font p s h.grid b;
    shown = put_here-Shows font p s h.grid h.shown b;
  }

  pub advance-IsSoundPanel :
      (s : Panel) (vertical : Bool)
      → IsSoundPanel font p s
      → IsSoundPanel font p (advance font p vertical s)
  unfolding advance
  advance-IsSoundPanel s vertical h =
      let P = λ (t : Panel). IsSoundPanel font p t in
      let g = h.grid in
      let start = move_to-IsSoundPanel s s.cursor_row 0 h g.row_in (omega (arith, g.col_in)) in
      if_true P (ltb (s.cursor_col + 1) p.columns) _ _
        (λ fits.
          move_to-IsSoundPanel s s.cursor_row (s.cursor_col + 1) h g.row_in (ground (arith, fits)))
        (if_true P (ltb (s.cursor_row + 1) p.rows) _ _
          (λ fits.
            move_to-IsSoundPanel s (s.cursor_row + 1) 0 h (ground (arith, fits))
              (omega (arith, g.col_in)))
          (both_branches P vertical _ _ (scroll_up-IsSoundPanel (move_to s.cursor_row 0 s) start)
            (move_to-IsSoundPanel s 0 0 h (omega (arith, g.row_in)) (omega (arith, g.col_in)))))

  pub retreat-IsSoundPanel : (s : Panel) → IsSoundPanel font p s → IsSoundPanel font p (retreat p s)
  retreat-IsSoundPanel s h = record {
    grid = retreat-IsGrid font p s h.grid;
    shown = retreat-Shows font p s h.shown;
  }

  pub push_right-IsSoundPanel :
      (s : Panel) (b : ℕ) → IsSoundPanel font p s → IsSoundPanel font p (push_right font p b s)
  push_right-IsSoundPanel s b h = record {
    grid = push_right-IsGrid font p s h.grid b;
    shown = push_right-Shows font p s h.grid h.shown b;
  }

  pub set_mark-IsSoundPanel :
      (s : Panel) (b : ℕ) → IsSoundPanel font p s → IsSoundPanel font p (set_mark font p b s)
  set_mark-IsSoundPanel s b h = record {
    grid = set_mark-IsGrid font p s h.grid b;
    shown = set_mark-Shows font p s h.grid h.shown b;
  }

  pub define_glyph-IsSoundPanel :
      (s : Panel) (args : List ℕ)
      → IsSoundPanel font p s
      → IsSoundPanel font p (define_glyph font p args s)
  define_glyph-IsSoundPanel s args h = record {
    grid = define_glyph-IsGrid font p s h.grid args;
    shown = define_glyph-Shows font p s h.grid h.shown args;
  }

  pub blank_panel-IsSoundPanel : 0 < p.rows → 0 < p.columns → IsSoundPanel font p (blank_panel p)
  blank_panel-IsSoundPanel hr hc = record {
    grid = blank_panel-IsGrid p hr hc;
    shown = blank_panel-Shows font p blank;
  }
