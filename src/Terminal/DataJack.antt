-- ===== src/Terminal/DataJack.antt =====
-- The data jack: `data_jack_model`, and what holds in every run.
use coin_line_emu.Base.{◌≡◌, refl, Bool, true, false, not, ◌||◌, List, [], ◌∷◌, arith}

-- `relay_state`
pub data RelayState : Type 0 where
  relay_idle relay_connecting relay_dialing_completed : RelayState
  relay_disconnecting relay_connected relay_disconnect_delay : RelayState

pub record DataJack : Type 0 where
  pub state : RelayState
  pub control_on : Bool
  pub call_established : Bool
  pub data_session_active : Bool
  pub disconnect_supervision_pending : Bool

-- The member initialisers.
abbrev pub new : DataJack
new = record {
  state = relay_idle;
  control_on = false;
  call_established = false;
  data_session_active = false;
  disconnect_supervision_pending = false;
}

-- Only an idle jack takes the signal.
abbrev pub connect : RelayState → DataJack → DataJack
connect relay_idle j = record {
  state = relay_connecting;
  control_on = true;
  call_established = false;
  data_session_active = false;
  disconnect_supervision_pending = false;
}
connect _ j = j

unfoldable pub manual_keypad_digit_signal : DataJack → DataJack
manual_keypad_digit_signal j = connect j.state j

abbrev pub complete_sequence : RelayState → DataJack → DataJack
complete_sequence relay_connecting j = record j { state = relay_dialing_completed }
complete_sequence relay_disconnecting j = record {
  state = relay_idle;
  control_on = false;
  call_established = true;
  data_session_active = false;
  disconnect_supervision_pending = false;
}
complete_sequence _ j = j

unfoldable pub on_relay_sequence_complete_event : DataJack → DataJack
on_relay_sequence_complete_event j = complete_sequence j.state j

abbrev pub complete_dialing : RelayState → DataJack → DataJack
complete_dialing relay_dialing_completed j = record j { state = relay_connected }
complete_dialing _ j = j

unfoldable pub on_dialing_complete_event : DataJack → DataJack
on_dialing_complete_event j = complete_dialing j.state j

unfoldable pub on_laptop_drop : DataJack → DataJack
on_laptop_drop j = new

abbrev pub establish : RelayState → DataJack → DataJack
establish relay_connected j = record j { data_session_active = true }
establish _ j = j

unfoldable pub on_data_session_established : DataJack → DataJack
on_data_session_established j = establish j.state j

abbrev pub expire : RelayState → DataJack → DataJack
expire relay_connected j = record j {
  state = relay_disconnect_delay;
  disconnect_supervision_pending = true;
}
expire relay_disconnect_delay j = record j { state = relay_disconnecting }
expire _ j = j

unfoldable pub on_disconnect_delay_expired : DataJack → DataJack
on_disconnect_delay_expired j = expire j.state j

-- The events.
pub data Event : Type 0 where
  digit_signal sequence_complete dialing_complete laptop_drop session_established delay_expired :
      Event

unfoldable pub step : Event → DataJack → DataJack
step digit_signal j = manual_keypad_digit_signal j
step sequence_complete j = on_relay_sequence_complete_event j
step dialing_complete j = on_dialing_complete_event j
step laptop_drop j = on_laptop_drop j
step session_established j = on_data_session_established j
step delay_expired j = on_disconnect_delay_expired j

unfoldable pub run : List Event → DataJack → DataJack
run [] j = j
run (e ∷ es) j = run es (step e j)

-- The states with the relay's control on, the supervision pending, and a session possible.
abbrev pub is_idle : RelayState → Bool
is_idle relay_idle = true
is_idle _ = false

abbrev pub is_disconnecting : RelayState → Bool
is_disconnecting relay_disconnect_delay = true
is_disconnecting relay_disconnecting = true
is_disconnecting _ = false

abbrev pub is_connected : RelayState → Bool
is_connected relay_connected = true
is_connected _ = false

-- The flags agree with the state.
pub record Consistent (j : DataJack) : Type 0 where
  pub control : j.control_on ≡ not (is_idle j.state)
  pub pending : j.disconnect_supervision_pending ≡ is_disconnecting j.state
  pub session :
      (not j.data_session_active || (is_connected j.state || is_disconnecting j.state)) ≡ true
  pub established : (not j.call_established || is_idle j.state) ≡ true

step-Consistent : (e : Event) (j : DataJack) → Consistent j → Consistent (step e j)
unfolding step manual_keypad_digit_signal on_relay_sequence_complete_event on_dialing_complete_event
    on_laptop_drop on_data_session_established on_disconnect_delay_expired
step-Consistent e j k = record {
  control = ground (arith, k.control, k.pending, k.session, k.established);
  pending = ground (arith, k.control, k.pending, k.session, k.established);
  session = ground (arith, k.control, k.pending, k.session, k.established);
  established = ground (arith, k.control, k.pending, k.session, k.established);
}

run_from : (es : List Event) (j : DataJack) → Consistent j → Consistent (run es j)
unfolding run
run_from [] j k = k
run_from (e ∷ es) j k = run_from es (step e j) (step-Consistent e j k)

-- In every run from the start the control is on exactly outside the idle state, the supervision of
-- the disconnect is pending exactly in the two disconnecting states, a data session is active only
-- in those and the connected state, and a call is established only in the idle state.
pub run_jack-Consistent : (es : List Event) → Consistent (run es new)
run_jack-Consistent es =
    run_from es new (record { control = refl; pending = refl; session = refl; established = refl })
