-- ===== src/Modem.antt =====
-- The modem of src/mame/coinline/millennium_modem_model.{h,cpp}: the line's state, the control
-- lines, the transcript, and the replay of fixture texts.
pub mod Line
pub mod Printing
pub mod Replay
use Prim.Native.String.{String}
use coin_line_emu.Base.{
  ℕ, zero, suc, ◌+◌, ◌-◌, ◌*◌, Bool, true, false, not, ◌&&◌, ◌||◌, Option, none, some, List, [],
  ◌∷◌, ◌++◌, bit_or, drop, leb, ltb, ◌==◌, if◌then◌else◌, u8, u32,
}
use coin_line_emu.Base.Text.{
  bytes, text_eq, is_empty, is_space, starts_with, skip_spaces, c_str, lines, words,
}

-- `millennium_modem_state`
pub data State : Type 0 where
  idle dialing ringing connected busy no_answer carrier_lost noisy_line : State

-- `millennium_modem_transcript_entry`
pub record TranscriptEntry : Type 0 where
  pub direction : ℕ
  pub byte : ℕ

pub record Modem : Type 0 where
  pub state : State
  pub dcd : Bool
  pub cts : Bool
  pub rts : Bool
  pub dtr : Bool
  pub m8_pending : Bool
  pub m8_latched : Bool
  pub transcript : List TranscriptEntry
  pub clean_connect_line : ℕ
  pub in_clean_connect_replay : Bool

-- The member initialisers.
abbrev pub new : Modem
new = record {
  state = idle;
  dcd = false;
  cts = true;
  rts = false;
  dtr = false;
  m8_pending = false;
  m8_latched = false;
  transcript = [];
  clean_connect_line = 0;
  in_clean_connect_replay = false;
}

unfoldable pub state_cstr : State → String
state_cstr idle = "idle"
state_cstr dialing = "dialing"
state_cstr ringing = "ringing"
state_cstr connected = "connected"
state_cstr busy = "busy"
state_cstr no_answer = "no_answer"
state_cstr carrier_lost = "carrier_lost"
state_cstr noisy_line = "noisy_line"

unfoldable pub declared_states : List State
declared_states =
    idle ∷ dialing ∷ ringing ∷ connected ∷ busy ∷ no_answer ∷ carrier_lost ∷ noisy_line ∷ []

-- The line `dtr` is kept.
unfoldable pub reset : Modem → Modem
reset m = record new { dtr = m.dtr }

unfoldable pub goto_idle : Modem → Modem
goto_idle m = record m { state = idle; dcd = false }

abbrev pub is_connected : State → Bool
is_connected connected = true
is_connected _ = false

unfoldable pub set_dtr : Bool → Modem → Modem
set_dtr v m =
    let m1 = record m { dtr = v } in
    if not v && not (is_connected m1.state) then goto_idle m1 else m1

unfoldable pub set_rts : Bool → Modem → Modem
set_rts v m = record m { rts = v }

unfoldable pub append_tx : ℕ → Modem → Modem
append_tx b m = record m { transcript = m.transcript ++ record { direction = b't'; byte = b } ∷ [] }

unfoldable pub append_rx : ℕ → Modem → Modem
append_rx b m = record m { transcript = m.transcript ++ record { direction = b'r'; byte = b } ∷ [] }

unfoldable pub note_tx : ℕ → Modem → Modem
note_tx b m = append_tx b m

unfoldable pub push_rx : ℕ → Modem → Modem
push_rx b m = append_rx b m

unfoldable pub note_asci_programmed : ℕ → ℕ → Modem → Modem
note_asci_programmed cntla cntlb m =
    if not m.m8_latched then record m { m8_pending = true; m8_latched = true } else m

unfoldable pub consume_m8_pending : Modem → Modem × Bool
consume_m8_pending m = (record m { m8_pending = false }, m.m8_pending)

unfoldable pub advance_clean_connect_line : ℕ → Modem → Modem
advance_clean_connect_line line_index m0 =
    let m = record m0 { in_clean_connect_replay = true } in
    if leb 3 line_index
    then m
    else if line_index == 0
    then record m { state = dialing }
    else if line_index == 1
    then record m { state = ringing }
    else record m { state = connected; dcd = true }

-- `!std::strcmp(name, event)`
abbrev is_event : List ℕ → String → Bool
is_event name event = text_eq name (bytes event)

unfoldable pub line_event : List ℕ → Modem → Modem × Bool
line_event name m =
    if is_event name "carrier_lost"
    then (record m { state = carrier_lost; dcd = false }, true)
    else if is_event name "ringing"
    then (record m { state = ringing }, true)
    else if is_event name "busy"
    then (record m { state = busy }, true)
    else if is_event name "no_answer"
    then (record m { state = no_answer }, true)
    else if is_event name "noisy_line"
    then (record m { state = noisy_line }, true)
    else if is_event name "connected"
    then (record m { state = connected; dcd = true }, true)
    else if is_event name "dialing"
    then (record m { state = dialing }, true)
    else if is_event name "recover_idle"
    then (goto_idle m, true)
    else if is_event name "idle"
    then (goto_idle m, true)
    else (m, false)

-- `none` is the null pointer.
unfoldable pub inject_event : Option (List ℕ) → Modem → Modem × Bool
inject_event none m = (m, false)
inject_event (some name) m = line_event name m

-- The value of a hexadecimal digit.
unfoldable pub hex_digit : ℕ → Option ℕ
hex_digit c =
    if leb b'0' c && leb c b'9'
    then some (c - b'0')
    else if leb b'a' c && leb c b'f'
    then some (10 + (c - b'a'))
    else if leb b'A' c && leb c b'F'
    then some (10 + (c - b'A'))
    else none

-- The loop of `parse_hex_byte`, with the value and the count of the digits so far.
unfoldable pub parse_hex_byte : List ℕ → ℕ → ℕ → Option ℕ
parse_hex_byte [] out digits = if ltb 0 digits then some out else none
parse_hex_byte (c ∷ s) out digits = elim (hex_digit c) [
  | some v ↦
      if ltb 2 (digits + 1) then none else parse_hex_byte s (bit_or (out * 16) v) (digits + 1)
  | none ↦ if is_space c then parse_hex_byte s out digits else none
]

-- `error_out`, with the text behind its message
pub data ReplayError : Type 0 where
  unknown_event : List ℕ → ReplayError
  bad_hex_token : List ℕ → ReplayError

pub data HexLine : Type 0 where
  hex_bytes : List ℕ → HexLine
  hex_error : ReplayError → HexLine

unfoldable pub parse_tokens : List (List ℕ) → HexLine
parse_tokens [] = hex_bytes []
parse_tokens (tok ∷ toks) = elim (parse_hex_byte tok 0 0) [
  | none ↦ hex_error (bad_hex_token tok)
  | some v ↦ elim (parse_tokens toks) [
    | hex_bytes bs ↦ hex_bytes (u8 v ∷ bs)
    | hex_error e ↦ hex_error e
  ]
]

unfoldable pub parse_hex_line : List ℕ → HexLine
parse_hex_line line = parse_tokens (words line)

-- The characters that `trim_copy` takes off the end.
abbrev is_trailing : ℕ → Bool
is_trailing c = c == b'\r' || c == b'\n' || c == b' ' || c == b'\t'

unfoldable pub trim_back : List ℕ → List ℕ
trim_back [] = []
trim_back (c ∷ s) =
    let rest = trim_back s in if is_empty rest && is_trailing c then [] else c ∷ rest

unfoldable pub trim_copy : List ℕ → List ℕ
trim_copy s = skip_spaces (trim_back s)

unfoldable pub push_all : List ℕ → Modem → Modem
push_all [] m = m
push_all (b ∷ bs) m = push_all bs (push_rx b m)

-- A line behind `#`.
unfoldable pub replay_comment : List ℕ → Modem → Modem × Option ReplayError
replay_comment rest m =
    let name = trim_copy (drop 5 rest) in
    let (m1, known) = inject_event (some (c_str name)) m in
    if starts_with (bytes "event") rest
    then (if known then (m1, none) else (m1, some (unknown_event name)))
    else (m, none)

unfoldable pub replay_hex : List ℕ → ℕ → Modem → Modem × ℕ × Option ReplayError
replay_hex line index m = elim (parse_hex_line line) [
  | hex_error e ↦ (m, index, some e)
  | hex_bytes bs ↦ (advance_clean_connect_line index (push_all bs m), u32 (index + 1), none)
]

-- One turn of the loop, on a trimmed line: the object, the index of the next hex line, the error.
unfoldable pub replay_line : List ℕ → ℕ → Modem → Modem × ℕ × Option ReplayError
replay_line [] index m = (m, index, none)
replay_line (c ∷ s) index m =
    let (m1, e) = replay_comment (trim_copy s) m in
    if c == b'#' then (m1, index, e) else replay_hex (c ∷ s) index m

unfoldable pub replay_lines : List (List ℕ) → ℕ → Modem → Modem × Option ReplayError
replay_lines [] index m = (m, none)
replay_lines (line ∷ ls) index m =
    let (m1, next, e) = replay_line (trim_copy line) index m in
    elim e [ none ↦ replay_lines ls next m1 | some err ↦ (m1, some err) ]

unfoldable pub replay_fixture_text : List ℕ → Modem → Modem × Option ReplayError
replay_fixture_text text m = replay_lines (lines text) 0 m
