-- ===== src/Modem/Line.antt =====
-- What holds of the line's state in every run of the modem, replays included.
use coin_line_emu.Base.{
  ℕ, ◌+◌, ◌≤◌, ◌≡◌, refl, Bool, true, not, Option, none, some, List, [], ◌∷◌, arith, bit_of, ◌∙◌,
  drop,
}
use coin_line_emu.Base.Text.{bytes, text_eq, c_str, lines}
use coin_line_emu.Modem.{
  State, idle, connected, carrier_lost, Modem, reset, state_cstr, goto_idle, set_dtr, set_rts,
  note_tx, push_rx, append_tx, append_rx, note_asci_programmed, consume_m8_pending,
  advance_clean_connect_line, line_event, inject_event, push_all, replay_comment, replay_hex,
  replay_line, replay_lines, replay_fixture_text, trim_copy,
}

-- The name of each state is an event that is known and leads to that state.
pub inject_event-state_cstr :
    (s : State) (m : Modem)
    → let r = inject_event (some (bytes (state_cstr s))) m in (r.1 ≡ true) × (r.0.state ≡ s)
unfolding inject_event line_event state_cstr bytes text_eq goto_idle
inject_event-state_cstr idle m = (refl, refl)
inject_event-state_cstr _ m = (refl, refl)

-- The carrier is there while the line is connected, and is not there on an idle or lost line.
abbrev carrier_right : State → Bool → Bool
carrier_right connected dcd = dcd
carrier_right idle dcd = not dcd
carrier_right carrier_lost dcd = not dcd
carrier_right _ dcd = true

abbrev pub IsConsistent : Modem → Type 0
IsConsistent m = carrier_right m.state m.dcd ≡ true

-- What a replay keeps: a right carrier, and the milestone's flags.
abbrev Kept : Modem → Modem → Type 0
Kept m m1 =
    (IsConsistent m → IsConsistent m1)
    × (m1.m8_pending ≡ m.m8_pending)
    × (m1.m8_latched ≡ m.m8_latched)

Kept-trans : (a b c : Modem) → Kept a b → Kept b c → Kept a c
Kept-trans a b c ab bc = (λ h. bc.0 (ab.0 h), bc.1 ∙ ab.1, bc.2 ∙ ab.2)

line_event-Kept : (name : List ℕ) (m : Modem) → Kept m (line_event name m).0
unfolding line_event goto_idle
line_event-Kept name m = (λ h. ground (arith, h), ground arith, ground arith)

push_all-Kept : (bs : List ℕ) (m : Modem) → Kept m (push_all bs m)
unfolding push_all push_rx append_rx
push_all-Kept [] m = (λ h. h, refl, refl)
push_all-Kept (b ∷ bs) m = push_all-Kept bs (push_rx b m)

advance-Kept : (index : ℕ) (m : Modem) → Kept m (advance_clean_connect_line index m)
unfolding advance_clean_connect_line
advance-Kept index m = (λ h. ground (arith, h), ground arith, ground arith)

hex-Kept : (line : List ℕ) (index : ℕ) (m : Modem) → Kept m (replay_hex line index m).0
unfolding replay_hex
hex-Kept line index m =
    let keep : (bs : List ℕ) → Kept m (advance_clean_connect_line index (push_all bs m)) = λ bs.
      Kept-trans m (push_all bs m) (advance_clean_connect_line index (push_all bs m))
        (push_all-Kept bs m) (advance-Kept index (push_all bs m)) in
    grind (arith, keep)

comment-Kept : (rest : List ℕ) (m : Modem) → Kept m (replay_comment rest m).0
unfolding replay_comment inject_event
comment-Kept rest m =
    let event = line_event-Kept (c_str (trim_copy (drop 5 rest))) m in ground (arith, event)

line-Kept : (line : List ℕ) (index : ℕ) (m : Modem) → Kept m (replay_line line index m).0
unfolding replay_line
line-Kept [] index m = (λ h. h, refl, refl)
line-Kept (c ∷ s) index m = ground (arith, comment-Kept (trim_copy s) m, hex-Kept (c ∷ s) index m)

lines-Kept : (ls : List (List ℕ)) (index : ℕ) (m : Modem) → Kept m (replay_lines ls index m).0
unfolding replay_lines
lines-Kept [] index m = (λ h. h, refl, refl)
lines-Kept (line ∷ ls) index m =
    let r = replay_line (trim_copy line) index m in
    ground (arith, line-Kept (trim_copy line) index m, lines-Kept ls r.1 r.0)

-- The calls between two resets.
pub data Op : Type 0 where
  dtr_line rts_line : Bool → Op
  transmitted received : ℕ → Op
  event : Option (List ℕ) → Op
  asci_programmed : ℕ → ℕ → Op
  consume_m8 : Op
  replay : List ℕ → Op

unfoldable pub apply : Op → Modem → Modem
apply (dtr_line v) m = set_dtr v m
apply (rts_line v) m = set_rts v m
apply (transmitted b) m = note_tx b m
apply (received b) m = push_rx b m
apply (event name) m = (inject_event name m).0
apply (asci_programmed cntla cntlb) m = note_asci_programmed cntla cntlb m
apply consume_m8 m = (consume_m8_pending m).0
apply (replay text) m = (replay_fixture_text text m).0

unfoldable pub run : List Op → Modem → Modem
run [] m = m
run (o ∷ os) m = run os (apply o m)

-- How often a call reports the milestone.
unfoldable pub reports : Op → Modem → ℕ
reports consume_m8 m = bit_of (consume_m8_pending m).1
reports _ m = 0

unfoldable pub m8_reports : List Op → Modem → ℕ
m8_reports [] m = 0
m8_reports (o ∷ os) m = reports o m + m8_reports os (apply o m)

apply-IsConsistent : (o : Op) (m : Modem) → IsConsistent m → IsConsistent (apply o m)
unfolding apply set_dtr set_rts goto_idle note_tx push_rx append_tx append_rx inject_event
    note_asci_programmed consume_m8_pending replay_fixture_text
apply-IsConsistent (event none) m h = h
apply-IsConsistent (event (some name)) m h = (line_event-Kept name m).0 h
apply-IsConsistent (replay text) m h = (lines-Kept (lines text) 0 m).0 h
apply-IsConsistent _ m h = ground (arith, h)

run-IsConsistent' : (os : List Op) (m : Modem) → IsConsistent m → IsConsistent (run os m)
unfolding run
run-IsConsistent' [] m h = h
run-IsConsistent' (o ∷ os) m h = run-IsConsistent' os (apply o m) (apply-IsConsistent o m h)

-- In every run from a reset, replays of any text included, the carrier is there while the line is
-- connected, and is not there on an idle line or behind a loss of the carrier.
pub run-IsConsistent : (os : List Op) (m : Modem) → IsConsistent (run os (reset m))
unfolding reset
run-IsConsistent os m = run-IsConsistent' os (reset m) refl

-- Pending implies latched, a report takes what is pending, and only an unlatched milestone rises.
step_reported :
    (o : Op) (m : Modem)
    → bit_of m.m8_pending ≤ bit_of m.m8_latched
    → (reports o m + bit_of (apply o m).m8_pending + bit_of m.m8_latched
        ≤ bit_of m.m8_pending + bit_of (apply o m).m8_latched)
      × (bit_of (apply o m).m8_pending ≤ bit_of (apply o m).m8_latched)
unfolding reports apply set_dtr set_rts goto_idle note_tx push_rx append_tx append_rx inject_event
    note_asci_programmed consume_m8_pending replay_fixture_text
step_reported (event none) m h = ground (arith, h)
step_reported (event (some name)) m h = ground (arith, h, line_event-Kept name m)
step_reported (replay text) m h = ground (arith, h, lines-Kept (lines text) 0 m)
step_reported _ m h = ground (arith, h)

m8_reports_le :
    (os : List Op) (m : Modem)
    → bit_of m.m8_pending ≤ bit_of m.m8_latched
    → m8_reports os m + bit_of m.m8_latched ≤ 1 + bit_of m.m8_pending
unfolding m8_reports
m8_reports_le [] m h = ground (arith, h)
m8_reports_le (o ∷ os) m h =
    let here = step_reported o m h in
    let rest = m8_reports_le os (apply o m) here.1 in omega (arith, here.0, rest)

-- Over any sequence of calls from a reset, the milestone of the serial port is reported at most
-- once.
pub m8_reports-reset : (os : List Op) (m : Modem) → m8_reports os (reset m) ≤ 1
unfolding reset
m8_reports-reset os m = omega (arith, m8_reports_le os (reset m) (omega arith))
