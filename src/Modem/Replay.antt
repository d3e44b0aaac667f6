-- ===== src/Modem/Replay.antt =====
-- The replay of a printed fixture text.
use mathlib.Core.List.{append-nil, append_assoc}
use coin_line_emu.Base.{
  ℕ, suc, ◌+◌, ◌/◌, ◌<◌, ◌≡◌, refl, sym, ◌∙◌, ap, Option, none, List, [], ◌∷◌, ◌++◌, map, arith,
  All, length, leb, ◌==◌, if◌then◌else◌, u32,
}
use coin_line_emu.Base.Text.{lines, IsText}
use coin_line_emu.Modem.{
  State, dialing, ringing, connected, Modem, TranscriptEntry, push_rx, append_rx,
  advance_clean_connect_line, parse_hex_line, push_all, replay_hex, replay_line, replay_lines,
  replay_fixture_text, ReplayError,
}
use coin_line_emu.Modem.Printing.{
  print_byte, print_line, print_text, hex_char-plain, parse_tokens-print, words-print_line,
  trim_copy-print_line, lines-print_line,
}

replay_line-print_line :
    (b : ℕ) (bs : List ℕ) (index : ℕ) (m : Modem)
    → IsText (b ∷ bs)
    → replay_line (print_line (b ∷ bs)) index m
      ≡ (advance_clean_connect_line index (push_all (b ∷ bs) m), u32 (index + 1), none)
unfolding replay_line replay_hex parse_hex_line print_line print_byte
replay_line-print_line b [] index m h = ground (
  arith,
  hex_char-plain (b / 16) (omega (arith, h.0)),
  words-print_line b [] h,
  parse_tokens-print (b ∷ []) h,
)
replay_line-print_line b (c ∷ bs) index m h = ground (
  arith,
  hex_char-plain (b / 16) (omega (arith, h.0)),
  words-print_line b (c ∷ bs) h,
  parse_tokens-print (b ∷ c ∷ bs) h,
)

-- What the transcript keeps of received bytes.
abbrev pub received : ℕ → TranscriptEntry
received b = record { direction = b'r'; byte = b }

push_all-transcript :
    (bs : List ℕ) (m : Modem) → (push_all bs m).transcript ≡ m.transcript ++ map received bs
unfolding push_all push_rx append_rx
push_all-transcript [] m = sym (append-nil m.transcript)
push_all-transcript (b ∷ bs) m =
    push_all-transcript bs (push_rx b m)
    ∙ append_assoc m.transcript (received b ∷ []) (map received bs)

-- The lines' bytes, one behind the other.
unfoldable pub concat : List (List ℕ) → List ℕ
concat [] = []
concat (bs ∷ ls) = bs ++ concat ls

-- The line's state behind `n` lines.
unfoldable pub state_behind : ℕ → State → State
state_behind n s =
    if n == 0 then s else if n == 1 then dialing else if n == 2 then ringing else connected

state_behind-zero : (s : State) → s ≡ state_behind 0 s
unfolding state_behind
state_behind-zero s = refl

-- A line with at least one byte.
abbrev pub IsLine : List ℕ → Type 0
IsLine bs = (0 < length bs) × IsText bs

push_all-state : (bs : List ℕ) (m : Modem) → (push_all bs m).state ≡ m.state
unfolding push_all push_rx append_rx
push_all-state [] m = refl
push_all-state (b ∷ bs) m = push_all-state bs (push_rx b m)

map-append : (xs ys : List ℕ) → map received (xs ++ ys) ≡ map received xs ++ map received ys
map-append [] ys = refl
map-append (x ∷ xs) ys = ap (λ (t : List TranscriptEntry). received x ∷ t) (map-append xs ys)

lines-print_text : (ls : List (List ℕ)) → All IsLine ls → lines (print_text ls) ≡ map print_line ls
unfolding print_text lines
lines-print_text [] h = refl
lines-print_text ([] ∷ ls) h = absurd (omega (arith, h.0.0))
lines-print_text ((b ∷ bs) ∷ ls) h =
    lines-print_line b bs (print_text ls) h.0.1
    ∙ ap (λ (t : List (List ℕ)). print_line (b ∷ bs) ∷ t) (lines-print_text ls h.1)

replay_lines-print_line :
    (b : ℕ) (bs : List ℕ) (rest : List (List ℕ)) (index : ℕ) (m : Modem)
    → IsText (b ∷ bs)
    → index < 4294967295
    → replay_lines (print_line (b ∷ bs) ∷ rest) index m
      ≡ replay_lines rest (index + 1) (advance_clean_connect_line index (push_all (b ∷ bs) m))
unfolding replay_lines
replay_lines-print_line b bs rest index m h fits =
    let next : u32 (index + 1) ≡ index + 1 = omega (arith, fits) in
    let turn =
      ap (λ (line : List ℕ). replay_line line index m) (trim_copy-print_line b bs h)
      ∙ replay_line-print_line b bs index m h in
    ground (arith, turn, next)

advance-transcript :
    (index : ℕ) (m : Modem) → (advance_clean_connect_line index m).transcript ≡ m.transcript
unfolding advance_clean_connect_line
advance-transcript index m = ground arith

advance-state :
    (index : ℕ) (m : Modem)
    → (advance_clean_connect_line index m).state
      ≡ (if leb 3 index then m.state else state_behind (index + 1) m.state)
unfolding advance_clean_connect_line state_behind
advance-state index m = ground arith

-- A further line leads the state on.
state_behind-suc :
    (index : ℕ) (before : State) (m1 m2 : Modem)
    → m1.state ≡ state_behind index before
    → m2.state ≡ (if leb 3 index then m1.state else state_behind (index + 1) m1.state)
    → m2.state ≡ state_behind (index + 1) before
unfolding state_behind
state_behind-suc index before m1 m2 here moved = ground (arith, here, moved)

-- What is expected behind the lines from `index` on, where `before` was the state at the first.
abbrev Replayed : State → List (List ℕ) → ℕ → Modem → Modem × Option ReplayError → Type 0
Replayed before ls index m r =
    (r.1 ≡ none)
    × (r.0.transcript ≡ m.transcript ++ map received (concat ls))
    × (r.0.state ≡ state_behind (index + length ls) before)

replay_lines-Replayed :
    (before : State) (ls : List (List ℕ)) (index : ℕ) (m : Modem)
    → All IsLine ls
    → index + length ls < 4294967296
    → m.state ≡ state_behind index before
    → Replayed before ls index m (replay_lines (map print_line ls) index m)
unfolding replay_lines concat
replay_lines-Replayed before [] index m h fits here =
    let at : index ≡ index + 0 = omega arith in
    (refl, sym (append-nil m.transcript), here ∙ ap (λ (n : ℕ). state_behind n before) at)
replay_lines-Replayed before ([] ∷ ls) index m h fits here = absurd (omega (arith, h.0.0))
replay_lines-Replayed before ((b ∷ bs) ∷ ls) index m h fits here =
    let m1 = push_all (b ∷ bs) m in
    let m2 = advance_clean_connect_line index m1 in
    let moved =
      state_behind-suc index before m1 m2 (push_all-state (b ∷ bs) m ∙ here)
        (advance-state index m1) in
    let (done, kept, led) =
      replay_lines-Replayed before ls (index + 1) m2 h.1 (omega arith) moved in
    let first =
      replay_lines-print_line b bs (map print_line ls) index m h.0.1 (omega (arith, fits)) in
    let entries : m2.transcript ≡ m.transcript ++ map received (b ∷ bs) =
      advance-transcript index m1 ∙ push_all-transcript (b ∷ bs) m in
    let tail = map received (concat ls) in
    let joined : m2.transcript ++ tail ≡ m.transcript ++ map received (b ∷ bs ++ concat ls) =
      ap (λ (t : List TranscriptEntry). t ++ tail) entries
      ∙ (append_assoc m.transcript (map received (b ∷ bs)) tail
          ∙ ap (λ (t : List TranscriptEntry). m.transcript ++ t)
              (sym (map-append (b ∷ bs) (concat ls)))) in
    let at : index + 1 + length ls ≡ index + suc (length ls) = omega arith in
    (
      ap (λ (r : Modem × Option ReplayError). r.1) first ∙ done,
      ap (λ (r : Modem × Option ReplayError). r.0.transcript) first ∙ (kept ∙ joined),
      ap (λ (r : Modem × Option ReplayError). r.0.state) first
          ∙ (led ∙ ap (λ (n : ℕ). state_behind n before) at),
    )

-- Replaying the text of fewer than 2 ^ 32 lines of hexadecimal bytes, each line with a byte at
-- least, succeeds: the transcript gains exactly these bytes, in order, as received, and the line
-- is dialing behind the first line, ringing behind the second and connected from the third on.
pub replay_fixture_text-print_text :
    (ls : List (List ℕ)) (m : Modem)
    → All IsLine ls
    → length ls < 4294967296
    → let r = replay_fixture_text (print_text ls) m in
      (r.1 ≡ none)
      × (r.0.transcript ≡ m.transcript ++ map received (concat ls))
      × (r.0.state ≡ state_behind (length ls) m.state)
unfolding replay_fixture_text
replay_fixture_text-print_text ls m h fits =
    let (done, kept, led) =
      replay_lines-Replayed m.state ls 0 m h (omega (arith, fits)) (state_behind-zero m.state) in
    let text = ap (λ (t : List (List ℕ)). replay_lines t 0 m) (lines-print_text ls h) in
    let at : 0 + length ls ≡ length ls = omega arith in
    (
      ap (λ (r : Modem × Option ReplayError). r.1) text ∙ done,
      ap (λ (r : Modem × Option ReplayError). r.0.transcript) text ∙ kept,
      ap (λ (r : Modem × Option ReplayError). r.0.state) text
          ∙ (led ∙ ap (λ (n : ℕ). state_behind n m.state) at),
    )
