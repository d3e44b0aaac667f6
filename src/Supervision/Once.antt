-- ===== src/Supervision/Once.antt =====
-- The disconnects of a run.
use coin_line_emu.Base.{
  ℕ, ◌+◌, ◌≡◌, true, List, [], ◌∷◌, ◌++◌, arith, bit_of, u32, ◌==◌, ◌&&◌, if◌then◌else◌,
}
use coin_line_emu.Supervision.{
  Fsm, Event, Kind, Input, carrier_input, status_input, watchdog_input, tick_input, arm_input,
  windows_input, disconnect_event, reset, push_reversal, push_status, step_status, step_carrier,
  step_watchdog_fired, wink_window, defer_window, cutoff_window, step_clock_tick,
  arm_disconnect_timer, configure_timing_windows, step, run,
}

abbrev pub is_disconnect : Kind → ℕ
is_disconnect disconnect_event = 1
is_disconnect _ = 0

-- How many of the events are disconnects.
abbrev pub disconnects : List Event → ℕ
disconnects [] = 0
disconnects (e ∷ es) = is_disconnect e.kind + disconnects es

disconnects-append : (es fs : List Event) → disconnects (es ++ fs) ≡ disconnects es + disconnects fs
disconnects-append [] fs = omega arith
disconnects-append (e ∷ es) fs = omega (arith, disconnects-append es fs)

-- The disconnects of a step are what it adds to the flag.
abbrev pub Counts : Fsm → Fsm × List Event → Type 0
Counts s r = bit_of s.disconnect_emitted + disconnects r.1 ≡ bit_of r.0.disconnect_emitted

push_reversal-Counts : (code cycle pc : ℕ) (s : Fsm) → Counts s (push_reversal code cycle pc s)
unfolding push_reversal
push_reversal-Counts code cycle pc s = ground arith

push_status-Counts : (code cycle pc : ℕ) (s : Fsm) → Counts s (push_status code cycle pc s)
unfolding push_status
push_status-Counts code cycle pc s =
    let s1 : Fsm = if code == 0x66 then record s { line_connected = true } else s in
    let s2 : Fsm =
      if code == 0x64 && s1.line_connected
      then record s1 { interruption_after_connect = true }
      else s1 in
    ground (arith, push_reversal-Counts code cycle pc s2)

cutoff_window-Counts : (cycle pc : ℕ) (s : Fsm) → Counts s (cutoff_window cycle pc s)
unfolding cutoff_window
cutoff_window-Counts cycle pc s = ground arith

wink_window-Counts : (cycle pc : ℕ) (s : Fsm) → Counts s (wink_window cycle pc s)
unfolding wink_window
wink_window-Counts cycle pc s = ground arith

defer_window-Counts : (cycle pc : ℕ) (s : Fsm) → Counts s (defer_window cycle pc s)
unfolding defer_window
defer_window-Counts cycle pc s = ground arith

step_clock_tick-Counts : (cycle pc : ℕ) (s : Fsm) → Counts s (step_clock_tick cycle pc s)
unfolding step_clock_tick
step_clock_tick-Counts cycle pc s =
    let s1 = record s { timer_ticks = u32 (s.timer_ticks + 1) } in
    let r2 = wink_window cycle pc s1 in
    let r3 = defer_window cycle pc r2.0 in
    let r4 = cutoff_window cycle pc r3.0 in
    ground (
      arith,
      wink_window-Counts cycle pc s1,
      defer_window-Counts cycle pc r2.0,
      cutoff_window-Counts cycle pc r3.0,
      disconnects-append r2.1 (r3.1 ++ r4.1),
      disconnects-append r3.1 r4.1,
    )

step-Counts : (i : Input) (s : Fsm) → Counts s (step i s)
unfolding step step_status step_carrier step_watchdog_fired arm_disconnect_timer
    configure_timing_windows
step-Counts (carrier_input up cycle pc) s = ground arith
step-Counts (status_input code cycle pc) s = push_status-Counts code cycle pc s
step-Counts (watchdog_input cycle pc) s = ground arith
step-Counts (tick_input cycle pc) s = step_clock_tick-Counts cycle pc s
step-Counts arm_input s = ground arith
step-Counts (windows_input w) s = ground arith

pub run-Counts : (is : List Input) (s : Fsm) → Counts s (run is s)
unfolding run
run-Counts [] s = omega arith
run-Counts (i ∷ is) s = omega (
  arith,
  step-Counts i s,
  run-Counts is (step i s).0,
  disconnects-append (step i s).1 (run is (step i s).0).1,
)

-- Whatever carrier changes, status codes, watchdog calls, clock ticks, arming and reconfiguration
-- follow a reset, the number of disconnect events emitted is 1 if the machine's flag is set and 0
-- otherwise.
pub run-disconnects :
    (is : List Input) (s : Fsm)
    → let r = run is (reset s) in disconnects r.1 ≡ bit_of r.0.disconnect_emitted
unfolding reset
run-disconnects is s = omega (arith, run-Counts is (reset s))
