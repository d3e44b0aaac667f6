-- ===== src/Vfd/Own.antt =====
-- A display against its own snapshot.
use coin_line_emu.Base.Bits.{all_below}
use coin_line_emu.Base.{
  ℕ, zero, suc, ◌+◌, ◌*◌, ◌<◌, ◌≡◌, ◌∙◌, ap, subst, refl, Bool, true, Option, some, List, [], ◌∷◌,
  ◌++◌, arith, ◌==◌, length, get_or, All,
}
use coin_line_emu.Vfd.{Vfd}
use coin_line_emu.Vfd.Read.{index_below}
use coin_line_emu.Vfd.Snapshot.{
  tabulate, text_row, text_rows, quoted_list, escaped_lines, snapshot_front, snapshot_back,
  export_snapshot_json,
}
use coin_line_emu.Vfd.Fixture.{
  Place, read_rows, row_matches, rows_match, text_rows_match_fixture_json,
}
use coin_line_emu.Vfd.ReadBack.{read_rows-quoted_list}
use coin_line_emu.Vfd.Text.{IsPrintable}
use coin_line_emu.Vfd.Bracket.{HasNoBracket, snapshot_front-HasNoBracket, parse-bracket}

length-tabulate : {A : Type 0} (from n : ℕ) (f : ℕ → A) → length (tabulate from n f) ≡ n
unfolding tabulate
length-tabulate from zero f = refl
length-tabulate from (suc n) f = ap suc (length-tabulate (from + 1) n f)

get_or-tabulate :
    {A : Type 0} (from n i : ℕ) (f : ℕ → A) (d : A)
    → i < n
    → get_or (tabulate from n f) i d ≡ f (from + i)
unfolding tabulate
get_or-tabulate from zero i f d h = absurd (omega arith)
get_or-tabulate from (suc n) zero f d h = ap f (let z : from ≡ from + 0 = omega arith in z)
get_or-tabulate from (suc n) (suc i) f d h =
    get_or-tabulate (from + 1) n i f d (omega arith)
    ∙ ap f (let z : from + 1 + i ≡ from + suc i = omega arith in z)

All-tabulate :
    {A : Type 0} (P : A → Type 0) (from n : ℕ) (f : ℕ → A)
    → ((i : ℕ) → i < n → P (f (from + i)))
    → All P (tabulate from n f)
unfolding tabulate
All-tabulate P from zero f holds = tt
All-tabulate P from (suc n) f holds = (
  subst (λ (k : ℕ). P (f k)) (let z : from + 0 ≡ from = omega arith in z) (holds 0 (omega arith)),
  All-tabulate P (from + 1) n f (λ i h.
      subst (λ (k : ℕ). P (f k)) (let z : from + suc i ≡ from + 1 + i = omega arith in z)
        (holds (suc i) (omega arith))),
)

all_below-true : (n : ℕ) (p : ℕ → Bool) → ((i : ℕ) → i < n → p i ≡ true) → all_below n p ≡ true
unfolding all_below
all_below-true zero p holds = refl
all_below-true (suc n) p holds =
    let before = all_below-true n p (λ i h. holds i (omega arith)) in
    let last = holds n (omega arith) in ground (arith, before, last)

get_or-row : {A : Type 0} (n i : ℕ) (f : ℕ → A) (d : A) → i < n → get_or (tabulate 0 n f) i d ≡ f i
get_or-row n i f d h = get_or-tabulate 0 n i f d h ∙ ap f (let z : 0 + i ≡ i = omega arith in z)

All-get_or_in :
    (P : ℕ → Type 0) (xs : List ℕ) (i d : ℕ) → All P xs → i < length xs → P (get_or xs i d)
All-get_or_in P [] i d all h = absurd (omega arith)
All-get_or_in P (x ∷ xs) zero d all h = all.0
All-get_or_in P (x ∷ xs) (suc i) d all h = All-get_or_in P xs i d all.1 (omega arith)

module _ (v : Vfd) where
  abbrev row_at : ℕ → List ℕ
  row_at row = text_row v.profile v.panel row

  -- A row of the display matches the same row of its text.
  row_matches_own :
      (row : ℕ) → row < v.profile.rows → row_matches v (text_rows v.profile v.panel) row ≡ true
  unfolding row_matches text_rows
  row_matches_own row hrow =
      let p = v.profile in
      let char = λ (col : ℕ). get_or v.panel.cells (row * p.columns + col) 0 in
      let line = get_or-row p.rows row row_at [] hrow in
      let width = ap length line ∙ length-tabulate 0 p.columns char in
      let columns =
        all_below-true p.columns
          (λ col. char col == get_or (get_or (tabulate 0 p.rows row_at) row []) col 0)
          (λ col hcol.
            let read =
              ap (λ (l : List ℕ). get_or l col 0) line ∙ get_or-row p.columns col char 0 hcol in
            ground (arith, read)) in
      ground (arith, width, columns)

  rows_match_own : rows_match v (some (text_rows v.profile v.panel)) ≡ true
  unfolding rows_match text_rows
  rows_match_own =
      let count = length-tabulate 0 v.profile.rows row_at in
      let rows =
        all_below-true v.profile.rows (λ row. row_matches v (text_rows v.profile v.panel) row)
          row_matches_own in
      ground (arith, count, rows)

  -- The rows are of printable characters when the cells are.
  text_rows-IsPrintable :
      All IsPrintable v.panel.cells
      → length v.panel.cells ≡ v.profile.rows * v.profile.columns
      → All (λ l. All IsPrintable l) (text_rows v.profile v.panel)
  unfolding text_rows
  text_rows-IsPrintable printable size =
      let p = v.profile in
      All-tabulate (λ l. All IsPrintable l) 0 p.rows row_at
        (λ row hrow.
          All-tabulate IsPrintable 0 p.columns
            (λ col. get_or v.panel.cells ((0 + row) * p.columns + col) 0)
            (λ col hcol.
              All-get_or_in IsPrintable v.panel.cells ((0 + row) * p.columns + (0 + col)) 0
                printable
                (omega (
                  arith,
                  size,
                  index_below p.rows p.columns (0 + row) (0 + col) (omega arith) (omega arith),
                ))))

rows_count : (v : Vfd) → 0 < v.profile.rows → 0 < length (text_rows v.profile v.panel)
unfolding text_rows
rows_count v h =
    omega (arith, h, length-tabulate 0 v.profile.rows (λ row. text_row v.profile v.panel row))

read_rows-some :
    (lines : List (List ℕ)) (s : List ℕ)
    → 0 < length lines
    → All (λ l. All IsPrintable l) lines
    → read_rows Place.before [] (quoted_list (escaped_lines lines) ++ (b']' ∷ s)) ≡ some lines
read_rows-some [] s some_line printable = absurd (omega arith)
read_rows-some (line ∷ lines) s some_line printable =
    read_rows-quoted_list line lines [] s printable

-- A display whose cells hold printable characters, and whose variant has no opening bracket, matches
-- its own snapshot.
pub text_rows_match_fixture_json-export_snapshot_json :
    (v : Vfd)
    → 0 < v.profile.rows
    → length v.panel.cells ≡ v.profile.rows * v.profile.columns
    → All IsPrintable v.panel.cells
    → HasNoBracket v.profile.variant
    → text_rows_match_fixture_json (export_snapshot_json v) v ≡ true
unfolding text_rows_match_fixture_json export_snapshot_json
text_rows_match_fixture_json-export_snapshot_json v some_row size printable clean =
    let lines = text_rows v.profile v.panel in
    let front = snapshot_front v.profile in
    let count : 0 < length lines = rows_count v some_row in
    let found =
      parse-bracket front (quoted_list (escaped_lines lines) ++ (b']' ∷ snapshot_back v))
        (snapshot_front-HasNoBracket v.profile clean) in
    let read =
      read_rows-some lines (snapshot_back v) count (text_rows-IsPrintable v printable size) in
    ap (λ (o : Option (List (List ℕ))). rows_match v o) (found ∙ read) ∙ rows_match_own v
