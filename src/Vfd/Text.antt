-- ===== src/Vfd/Text.antt =====
-- A text that is written to the display.
use coin_line_emu.Base.{
  ℕ, suc, ◌+◌, ◌-◌, ◌*◌, ◌<◌, ◌≤◌, ◌≡◌, ◌≢◌, ◌∙◌, ap, subst, refl, inl, inr, ◌&&◌, List, [], ◌∷◌,
  arith, ltb, leb, ◌==◌, if◌then◌else◌, length, All, get_or, set, Bool-cases, get_or-set_ne,
  get_or-set_self, length-set, length-replicate,
}
use coin_line_emu.Vfd.{DisplayProfile, Vfd, configured, configure, reset, blank_panel}
use coin_line_emu.Vfd.Grid.{at_least_one_pos}
use coin_line_emu.Vfd.Shows.{get_or-replicate}
use coin_line_emu.Vfd.Write.{Access, run}
use coin_line_emu.Vfd.Typing.{IsTyping, typed, write-typed, typed-IsTyping, typed-cells}

-- The writes of a text to the data register, each at the same cycle.
unfoldable pub text_accesses : ℕ → List ℕ → List Access
text_accesses cycle [] = []
text_accesses cycle (b ∷ text) =
    record { byte = b; cycle = cycle; pio_port_b = 0 } ∷ text_accesses cycle text

abbrev pub IsPrintable : ℕ → Type 0
IsPrintable b = 0x20 ≤ b

get_or-set :
    (xs : List ℕ) (k b i : ℕ)
    → k < length xs
    → get_or (set xs k b) i 0 ≡ (if i == k then b else get_or xs i 0)
get_or-set xs k b i h =
    let same = λ (e : k ≡ i).
      subst (λ (j : ℕ). get_or (set xs k b) j 0 ≡ b) e (get_or-set_self xs k b 0 h) in
    let apart = λ (ne : k ≢ i). get_or-set_ne xs k i b 0 ne in
    elim (Bool-cases (i == k)) [
      | inl here ↦ ground (arith, here, same (ground (arith, here)))
      | inr other ↦ ground (arith, other, apart (λ e. ground (arith, other, e)))
    ]

-- The first of the characters, and the rest of them.
merge_reads :
    (k i n : ℕ) {cell later before after b : ℕ} (old : ℕ)
    → cell ≡ (if leb (suc k) i && ltb i (suc k + n) then after else later)
    → later ≡ (if i == k then b else old)
    → (i ≡ k → before ≡ b)
    → (suc k ≤ i → before ≡ after)
    → cell ≡ (if leb k i && ltb i (k + suc n) then before else old)
merge_reads k i n old e was at rest = ground (arith, at, rest)

module _ (font : ℕ → List ℕ) (cycle : ℕ) where
  run-text :
      (text : List ℕ) (v : Vfd) (k i : ℕ)
      → IsTyping v k
      → k + length text ≤ length v.panel.cells
      → All IsPrintable text
      → get_or (run font (text_accesses cycle text) v).panel.cells i 0 ≡ (
          if leb k i && ltb i (k + length text)
          then get_or text (i - k) 0
          else get_or v.panel.cells i 0)
  unfolding run text_accesses
  run-text [] v k i t fits printable = ground arith
  run-text (b ∷ []) v k i t fits printable =
      let first =
        ap (λ (w : Vfd). get_or w.panel.cells i 0) (write-typed font v k b cycle t printable.0)
        ∙ (ap (λ (xs : List ℕ). get_or xs i 0) (typed-cells font v k b cycle t)
            ∙ get_or-set v.panel.cells k b i (omega arith)) in
      let at : i ≡ k → get_or (b ∷ []) (i - k) 0 ≡ b =
        λ e. ap (λ (j : ℕ). get_or (b ∷ []) j 0) (let z : i - k ≡ 0 = omega (arith, e) in z) in
      ground (arith, first, at)
  run-text (b ∷ c ∷ rest) v k i t fits printable =
      let w : Vfd = typed font cycle b v in
      let cells = typed-cells font v k b cycle t in
      let size : length w.panel.cells ≡ length v.panel.cells =
        ap length cells ∙ length-set v.panel.cells k b in
      let first = write-typed font v k b cycle t printable.0 in
      let after =
        run-text (c ∷ rest) w (suc k) i (typed-IsTyping font v k b cycle t (omega arith))
          (omega (arith, fits, size)) printable.1 in
      let was =
        ap (λ (xs : List ℕ). get_or xs i 0) cells ∙ get_or-set v.panel.cells k b i (omega arith) in
      let step =
        ap (λ (u : Vfd). get_or (run font (text_accesses cycle (c ∷ rest)) u).panel.cells i 0)
          first in
      let at : i ≡ k → get_or (b ∷ c ∷ rest) (i - k) 0 ≡ b = λ e.
        ap (λ (j : ℕ). get_or (b ∷ c ∷ rest) j 0) (let z : i - k ≡ 0 = omega (arith, e) in z) in
      let later : suc k ≤ i → get_or (b ∷ c ∷ rest) (i - k) 0 ≡ get_or (c ∷ rest) (i - suc k) 0 =
        λ h.
          ap (λ (j : ℕ). get_or (b ∷ c ∷ rest) j 0)
            (let z : i - k ≡ suc (i - suc k) = omega (arith, h) in z) in
      step ∙ merge_reads k i (length (c ∷ rest)) _ after was at later

  -- A text of printable bytes that fits, written to a display that was configured and reset, stands in
  -- the first cells in order, and the other cells are blank.
  pub run-text_accesses :
      (d : DisplayProfile) (v : Vfd) (text : List ℕ) (i : ℕ)
      → length text ≤ (configured d).rows * (configured d).columns
      → All IsPrintable text
      → i < (configured d).rows * (configured d).columns
      → get_or (run font (text_accesses cycle text) (reset (configure d v))).panel.cells i 0
        ≡ (if ltb i (length text) then get_or text i 0 else b' ')
  unfolding reset configure configured blank_panel
  run-text_accesses d v text i fits printable inside =
      let w : Vfd = reset (configure d v) in
      let count = (configured d).rows * (configured d).columns in
      let size = length-replicate {A = ℕ} count b' ' in
      let start : IsTyping w 0 = record {
        normal_mode = refl;
        forward = refl;
        still = refl;
        wraps = refl;
        row_in = at_least_one_pos d.rows;
        col_in = at_least_one_pos d.columns;
        here = omega arith;
        size = size;
      } in
      let blank = get_or-replicate count i b' ' inside in
      let shown = run-text text w 0 i start (omega (arith, fits, size)) printable in
      let from : i - 0 ≡ i = omega arith in
      let same = ap (λ (j : ℕ). get_or text j 0) from in ground (arith, shown, blank, same)
