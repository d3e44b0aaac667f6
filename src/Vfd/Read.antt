-- ===== src/Vfd/Read.antt =====
-- What the dot plane holds after a cell is drawn.
use native.Mathlib.Nat.{mul-le-mul_right}
use coin_line_emu.Base.{
  ℕ, zero, suc, ◌+◌, ◌-◌, ◌*◌, ◌≤◌, ◌<◌, ◌≡◌, ◌≢◌, ◌∙◌, ap, sym, set, refl, Bool, true, false, ◌&&◌,
  ◌||◌, List, [], ◌∷◌, arith, ltb, leb, ◌==◌, if◌then◌else◌, get_or, length, length-set,
  get_or-set_self, get_or-set_ne, bit_of, both_branches,
}
use coin_line_emu.Vfd.{Profile}
use coin_line_emu.Vfd.Dots.{
  dot_index, set_dot, draw_row, draw_block, Mark, mark_dot, mark_dots, for_below,
}

-- The dot in a row and a column of the plane.
unfoldable pub dot : Profile → List ℕ → ℕ → ℕ → ℕ
dot p dots row col = get_or dots (dot_index p row col) 0

abbrev pub plane_size : Profile → ℕ
plane_size p = p.rows * 7 * (p.columns * 5)

-- A place in a plane of rows of width `w`, and that different places have different indices.
pub index_below : (h w r c : ℕ) → r < h → c < w → r * w + c < h * w
index_below h w r c hr hc =
    let rows : suc r * w ≤ h * w = mul-le-mul_right w hr in
    let next : suc r * w ≡ r * w + w = omega arith in omega (arith, rows, next)

index_apart_rows : (w r r' c c' : ℕ) → c < w → r < r' → r * w + c ≢ r' * w + c'
index_apart_rows w r r' c c' hc hr e =
    let rows : suc r * w ≤ r' * w = mul-le-mul_right w hr in
    let next : suc r * w ≡ r * w + w = omega arith in omega (arith, rows, next)

pub index_apart :
    (w r r' c c' : ℕ) → c < w → c' < w → (r == r' && c == c') ≡ false → r * w + c ≢ r' * w + c'
index_apart w r r' c c' hc hc' differ e =
    let below = index_apart_rows w r r' c c' hc in
    let above = index_apart_rows w r' r c' c hc' in
    let same : r ≡ r' → r * w ≡ r' * w = λ h. ap (λ (t : ℕ). t * w) h in
    ground (arith, λ (h : r < r'). below h e, λ (h : r' < r). above h (omega (arith, e)), same)

pub length-set_dot :
    (p : Profile) (r c : ℕ) (on : Bool) (dots : List ℕ)
    → length (set_dot p r c on dots) ≡ length dots
unfolding set_dot
length-set_dot p r c on dots =
    both_branches (λ (ds : List ℕ). length ds ≡ length dots)
      (leb (p.rows * 7) r || leb (p.columns * 5) c) dots _ refl
      (length-set dots (dot_index p r c) (bit_of on))

pub length-draw_row :
    (p : Profile) (y x : ℕ) (on : ℕ → Bool) (n : ℕ) (dots : List ℕ)
    → length (draw_row p y x on n dots) ≡ length dots
unfolding draw_row for_below
length-draw_row p y x on zero dots = refl
length-draw_row p y x on (suc n) dots =
    length-set_dot p y (x + n) (on n) (draw_row p y x on n dots) ∙ length-draw_row p y x on n dots

pub length-draw_block :
    (p : Profile) (y x : ℕ) (on : ℕ → ℕ → Bool) (n : ℕ) (dots : List ℕ)
    → length (draw_block p y x on n dots) ≡ length dots
unfolding draw_block for_below
length-draw_block p y x on zero dots = refl
length-draw_block p y x on (suc n) dots =
    length-draw_row p (y + n) x (on n) 5 (draw_block p y x on n dots)
    ∙ length-draw_block p y x on n dots

length-mark_dot :
    (p : Profile) (y x : ℕ) (m : Mark) (dots : List ℕ)
    → length (mark_dot p y x m dots) ≡ length dots
unfolding mark_dot
length-mark_dot p y x m dots =
    both_branches (λ (ds : List ℕ). length ds ≡ length dots) m.shown _ dots
      (length-set_dot p (y + m.ry) (x + m.cx) true dots) refl

pub length-mark_dots :
    (p : Profile) (y x : ℕ) (ms : List Mark) (dots : List ℕ)
    → length (mark_dots p y x ms dots) ≡ length dots
unfolding mark_dots
length-mark_dots p y x [] dots = refl
length-mark_dots p y x (m ∷ ms) dots =
    length-mark_dots p y x ms (mark_dot p y x m dots) ∙ length-mark_dot p y x m dots

-- Whether one of the marks of the cell at a place lights a dot of the plane.
abbrev pub lit_by : List Mark → ℕ → ℕ → ℕ → ℕ → Bool
lit_by [] y x r c = false
lit_by (m ∷ ms) y x r c = (m.shown && r == y + m.ry && c == x + m.cx) || lit_by ms y x r c

module _ (p : Profile) (r c : ℕ) (hr : r < p.rows * 7) (hc : c < p.columns * 5) where
  -- A dot that is set, and the others.
  pub dot-set_dot :
      (y x : ℕ) (on : Bool) (dots : List ℕ)
      → length dots ≡ plane_size p
      → dot p (set_dot p y x on dots) r c ≡ (if r == y && c == x then bit_of on else dot p dots r c)
  unfolding dot set_dot
  dot-set_dot y x on dots size =
      let place = index_below (p.rows * 7) (p.columns * 5) r c hr hc in
      let here = λ (e : dot_index p y x ≡ dot_index p r c).
        ap (λ (i : ℕ). get_or (set dots i (bit_of on)) (dot_index p r c) 0) e
        ∙ get_or-set_self dots (dot_index p r c) (bit_of on) 0 (omega (arith, place, size)) in
      let same = λ (ey : r ≡ y) (ex : c ≡ x).
        here
          (ap (λ (t : ℕ). dot_index p t x) (sym ey) ∙ ap (λ (t : ℕ). dot_index p r t) (sym ex)) in
      let apart = λ (hx : x < p.columns * 5) (differ : (y == r && x == c) ≡ false).
        get_or-set_ne dots (dot_index p y x) (dot_index p r c) (bit_of on) 0
          (index_apart (p.columns * 5) y r x c hx hc differ) in
      ground (arith, same, apart)

  pub dot-draw_row :
      (y x : ℕ) (on : ℕ → Bool) (n : ℕ) (dots : List ℕ)
      → length dots ≡ plane_size p
      → dot p (draw_row p y x on n dots) r c
        ≡ (if r == y && leb x c && ltb c (x + n) then bit_of (on (c - x)) else dot p dots r c)
  unfolding draw_row for_below
  dot-draw_row y x on zero dots size = ground arith
  dot-draw_row y x on (suc n) dots size =
      let before = draw_row p y x on n dots in
      let last = dot-set_dot y (x + n) (on n) before (length-draw_row p y x on n dots ∙ size) in
      let at = λ (e : c ≡ x + n).
        let offset : c - x ≡ n = omega (arith, e) in ap (λ (t : ℕ). bit_of (on t)) offset in
      ground (arith, last, at, dot-draw_row y x on n dots size)

  pub dot-draw_block :
      (y x : ℕ) (on : ℕ → ℕ → Bool) (n : ℕ) (dots : List ℕ)
      → length dots ≡ plane_size p
      → dot p (draw_block p y x on n dots) r c ≡ (
          if leb y r && ltb r (y + n) && leb x c && ltb c (x + 5)
          then bit_of (on (r - y) (c - x))
          else dot p dots r c)
  unfolding draw_block for_below
  dot-draw_block y x on zero dots size = ground arith
  dot-draw_block y x on (suc n) dots size =
      let before = draw_block p y x on n dots in
      let last =
        dot-draw_row (y + n) x (on n) 5 before (length-draw_block p y x on n dots ∙ size) in
      let at = λ (e : r ≡ y + n).
        let offset : r - y ≡ n = omega (arith, e) in ap (λ (t : ℕ). bit_of (on t (c - x))) offset in
      ground (arith, last, at, dot-draw_block y x on n dots size)

  dot-mark_dot :
      (y x : ℕ) (m : Mark) (dots : List ℕ)
      → length dots ≡ plane_size p
      → dot p (mark_dot p y x m dots) r c
        ≡ (if m.shown && r == y + m.ry && c == x + m.cx then 1 else dot p dots r c)
  unfolding mark_dot
  dot-mark_dot y x m dots size = ground (arith, dot-set_dot (y + m.ry) (x + m.cx) true dots size)

  pub dot-mark_dots :
      (y x : ℕ) (ms : List Mark) (dots : List ℕ)
      → length dots ≡ plane_size p
      → dot p (mark_dots p y x ms dots) r c ≡ (if lit_by ms y x r c then 1 else dot p dots r c)
  unfolding mark_dots
  dot-mark_dots y x [] dots size = refl
  dot-mark_dots y x (m ∷ ms) dots size =
      let first = dot-mark_dot y x m dots size in
      let rest =
        dot-mark_dots y x ms (mark_dot p y x m dots) (length-mark_dot p y x m dots ∙ size) in
      ground (arith, first, rest)
