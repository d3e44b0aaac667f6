-- ===== src/Supervision.antt =====
-- The disconnect supervision of src/mame/coinline/millennium_supervision_fsm.{h,cpp}.
-- A step returns the new state and the events that it pushes, in order.
pub mod Once
pub mod Cutoff
pub mod Reversal
use coin_line_emu.Base.{
  ℕ, ◌+◌, ◌%◌, Bool, true, false, not, ◌&&◌, ◌||◌, List, [], ◌∷◌, ◌++◌, leb, ◌==◌, if◌then◌else◌,
  u32,
}

-- `disconnect_kind`
pub data DisconnectKind : Type 0 where
  none normal_disconnect cpc timeout fault : DisconnectKind

-- `supervision_fsm_event::kind`
pub data Kind : Type 0 where
  supervision_status_code disconnect_event supervision_timeout : Kind

pub record Event : Type 0 where
  pub kind : Kind
  pub status_code : ℕ
  pub disconnect : DisconnectKind
  pub cycle : ℕ
  pub pc : ℕ

abbrev pub make_status : ℕ → ℕ → ℕ → Event
make_status code cycle pc = record {
  kind = supervision_status_code;
  status_code = code;
  disconnect = none;
  cycle = cycle;
  pc = pc;
}

abbrev pub make_disconnect : DisconnectKind → ℕ → ℕ → Event
make_disconnect k cycle pc = record {
  kind = disconnect_event;
  status_code = 0;
  disconnect = k;
  cycle = cycle;
  pc = pc;
}

abbrev pub make_timeout : ℕ → ℕ → Event
make_timeout cycle pc = record {
  kind = supervision_timeout;
  status_code = 0;
  disconnect = none;
  cycle = cycle;
  pc = pc;
}

pub data RevPhase : Type 0 where
  idle saw_rev0 : RevPhase

abbrev pub is_saw_rev0 : RevPhase → Bool
is_saw_rev0 saw_rev0 = true
is_saw_rev0 idle = false

pub record Windows : Type 0 where
  pub cutoff_ticks : ℕ
  pub wink_ticks : ℕ
  pub defer_ticks : ℕ

pub record Fsm : Type 0 where
  pub carrier : Bool
  pub line_connected : Bool
  pub interruption_after_connect : Bool
  pub rev : RevPhase
  pub disconnect_emitted : Bool
  pub windows : Windows
  pub timer_armed : Bool
  pub timer_ticks : ℕ
  pub wink_emitted : Bool
  pub defer_emitted : Bool

-- The member initialisers.
abbrev pub new : Fsm
new = record {
  carrier = false;
  line_connected = false;
  interruption_after_connect = false;
  rev = idle;
  disconnect_emitted = false;
  windows = record { cutoff_ticks = 0; wink_ticks = 0; defer_ticks = 0 };
  timer_armed = false;
  timer_ticks = 0;
  wink_emitted = false;
  defer_emitted = false;
}

-- `is_profile_status_code`
unfoldable pub is_profile_status_code : ℕ → Bool
is_profile_status_code c =
    c == 0x60
    || c == 0x62
    || c == 0x64
    || c == 0x66
    || c == 0x68
    || c == 0x6a
    || c == 0x6c
    || c == 0x6e
    || c == 0x8c
    || c == 0x8e

-- `reset` leaves the configured windows.
unfoldable pub reset : Fsm → Fsm
reset s = record new { windows = s.windows }

unfoldable pub configure_timing_windows : Windows → Fsm → Fsm
configure_timing_windows w s = record s { windows = w }

unfoldable pub arm_disconnect_timer : Fsm → Fsm
arm_disconnect_timer s = record s {
  timer_armed = true;
  timer_ticks = 0;
  wink_emitted = false;
  defer_emitted = false;
}

-- The part of `push_status` that follows the line reversals.
unfoldable pub push_reversal : ℕ → ℕ → ℕ → Fsm → Fsm × List Event
push_reversal code cycle pc s =
    if code == 0x68
    then (record s { rev = saw_rev0 }, [])
    else if code == 0x6a && is_saw_rev0 s.rev
    then (if not s.disconnect_emitted
        then (record s { rev = idle; disconnect_emitted = true }, make_disconnect cpc cycle pc ∷ [])
        else (record s { rev = idle }, []))
    else (s, [])

unfoldable pub push_status : ℕ → ℕ → ℕ → Fsm → Fsm × List Event
push_status code cycle pc s =
    if not (is_profile_status_code code)
    then (s, [])
    else (let s1 = if code == 0x66 then record s { line_connected = true } else s in
        let s2 =
          if code == 0x64 && s1.line_connected
          then record s1 { interruption_after_connect = true }
          else s1 in
        let (s3, out) = push_reversal code cycle pc s2 in (s3, make_status code cycle pc ∷ out))

unfoldable pub step_status : ℕ → ℕ → ℕ → Fsm → Fsm × List Event
step_status code cycle pc s = push_status code cycle pc s

unfoldable pub step_carrier : Bool → ℕ → ℕ → Fsm → Fsm × List Event
step_carrier carrier_up cycle pc s =
    if not carrier_up
      && s.carrier
      && s.line_connected
      && s.interruption_after_connect
      && not s.disconnect_emitted
    then (
      record s { disconnect_emitted = true; carrier = carrier_up },
      make_disconnect normal_disconnect cycle pc ∷ [],
    )
    else (record s { carrier = carrier_up }, [])

unfoldable pub step_watchdog_fired : ℕ → ℕ → Fsm → Fsm × List Event
step_watchdog_fired cycle pc s =
    if not s.disconnect_emitted
    then (
      record s { disconnect_emitted = true },
      make_timeout cycle pc ∷ make_disconnect timeout cycle pc ∷ [],
    )
    else (s, make_timeout cycle pc ∷ [])

-- The three windows of `step_clock_tick`, each with the events that it pushes.
unfoldable pub wink_window : ℕ → ℕ → Fsm → Fsm × List Event
wink_window cycle pc s =
    if not (s.windows.wink_ticks == 0)
      && not s.wink_emitted
      && leb s.windows.wink_ticks s.timer_ticks
    then (record s { wink_emitted = true }, make_status 0x8c cycle pc ∷ [])
    else (s, [])

unfoldable pub defer_window : ℕ → ℕ → Fsm → Fsm × List Event
defer_window cycle pc s =
    if not (s.windows.defer_ticks == 0)
      && not s.defer_emitted
      && leb s.windows.defer_ticks s.timer_ticks
    then (record s { defer_emitted = true }, make_status 0x8e cycle pc ∷ [])
    else (s, [])

unfoldable pub cutoff_window : ℕ → ℕ → Fsm → Fsm × List Event
cutoff_window cycle pc s =
    if not (s.windows.cutoff_ticks == 0)
      && leb s.windows.cutoff_ticks s.timer_ticks
      && not s.disconnect_emitted
    then (
      record s { disconnect_emitted = true; timer_armed = false },
      make_timeout cycle pc ∷ make_disconnect timeout cycle pc ∷ [],
    )
    else (s, [])

unfoldable pub step_clock_tick : ℕ → ℕ → Fsm → Fsm × List Event
step_clock_tick cycle pc s0 =
    if not s0.timer_armed
    then (s0, [])
    else (let s = record s0 { timer_ticks = u32 (s0.timer_ticks + 1) } in
        let (s1, winks) = wink_window cycle pc s in
        let (s2, defers) = defer_window cycle pc s1 in
        let (s3, cutoffs) = cutoff_window cycle pc s2 in (s3, winks ++ (defers ++ cutoffs)))

-- The calls that a machine makes between two resets.
pub data Input : Type 0 where
  carrier_input : Bool → ℕ → ℕ → Input
  status_input : ℕ → ℕ → ℕ → Input
  watchdog_input : ℕ → ℕ → Input
  tick_input : ℕ → ℕ → Input
  arm_input : Input
  windows_input : Windows → Input

unfoldable pub step : Input → Fsm → Fsm × List Event
step (carrier_input up cycle pc) s = step_carrier up cycle pc s
step (status_input code cycle pc) s = step_status code cycle pc s
step (watchdog_input cycle pc) s = step_watchdog_fired cycle pc s
step (tick_input cycle pc) s = step_clock_tick cycle pc s
step arm_input s = (arm_disconnect_timer s, [])
step (windows_input w) s = (configure_timing_windows w s, [])

unfoldable pub run : List Input → Fsm → Fsm × List Event
run [] s = (s, [])
run (i ∷ is) s = let (s', out) = step i s in let (last, more) = run is s' in (last, out ++ more)
