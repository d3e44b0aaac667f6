-- ===== src/Ncc/Session.antt =====
-- `session_model` of src/mame/coinline/millennium_modem_ncc.{h,cpp}: acknowledgements, retries and
-- the failure of a session.
pub mod Laws
use coin_line_emu.Base.{
  ℕ, ◌+◌, ◌%◌, Bool, true, false, not, ◌&&◌, ◌||◌, List, [], ◌∷◌, leb, ◌==◌, if◌then◌else◌, u32,
  tests,
}
use coin_line_emu.Ncc.{Frame}

pub data State : Type 0 where
  idle waiting_ack established failed : State

pub record Session : Type 0 where
  pub state : State
  pub max_retries : ℕ
  pub local_packet_id : ℕ
  pub retry_count : ℕ
  pub last_frame_was_nack : Bool

-- The `CONTROL_` masks.
abbrev pub control_ack : ℕ
control_ack = 0x08

abbrev pub control_nack : ℕ
control_nack = 0x10

abbrev pub control_clear_call : ℕ
control_clear_call = 0x20

-- `control & CONTROL_PACKET_ID_MASK`
abbrev pub control_packet_id : ℕ → ℕ
control_packet_id control = control % 4

abbrev pub is_failed : State → Bool
is_failed failed = true
is_failed _ = false

abbrev pub is_waiting : State → Bool
is_waiting waiting_ack = true
is_waiting _ = false

-- A session with the default members and the given limit.
abbrev pub start : ℕ → Session
start retries = record {
  state = idle;
  max_retries = retries;
  local_packet_id = 0;
  retry_count = 0;
  last_frame_was_nack = false;
}

unfoldable pub on_tx_frame : ℕ → Session → Session
on_tx_frame control s0 =
    let s = record s0 {
      last_frame_was_nack = false;
      local_packet_id = control_packet_id control;
    } in
    if tests control control_ack || tests control control_nack
    then record s { state = established }
    else if is_failed s.state
    then s
    else record s { state = waiting_ack }

unfoldable pub on_rx_frame : Frame → Session → Session
on_rx_frame frame s =
    let ours = control_packet_id frame.control == s.local_packet_id in
    if tests frame.control control_nack && ours
    then record s {
      last_frame_was_nack = true;
      state = if not (is_failed s.state) then waiting_ack else s.state;
    }
    else if tests frame.control control_ack && ours
    then record s {
      retry_count = 0;
      last_frame_was_nack = false;
      state = if not (is_failed s.state) then established else s.state;
    }
    else if tests frame.control control_clear_call
    then record s { state = idle; retry_count = 0; last_frame_was_nack = false }
    else s

unfoldable pub on_ack_timeout : Session → Session
on_ack_timeout s0 =
    if not (is_waiting s0.state) || is_failed s0.state
    then s0
    else (let s = record s0 { retry_count = u32 (s0.retry_count + 1) } in
        if leb s.max_retries s.retry_count then record s { state = failed } else s)

-- What happens to a session, in any order.
pub data Event : Type 0 where
  tx : ℕ → Event
  rx : Frame → Event
  ack_timeout : Event

unfoldable pub step : Event → Session → Session
step (tx control) s = on_tx_frame control s
step (rx frame) s = on_rx_frame frame s
step ack_timeout s = on_ack_timeout s

unfoldable pub run : List Event → Session → Session
run [] s = s
run (e ∷ es) s = run es (step e s)
