-- ===== src/Voice.antt =====
-- The voice prompts: the task of src/mame/coinline/millennium_voice_synthesis_model.cpp. Phrase has the
-- directory of the voice memory.
pub mod Phrase
use coin_line_emu.Base.{
  ℕ, ◌<◌, ◌≤◌, ◌≡◌, Bool, true, false, not, ◌&&◌, ◌||◌, ltb, leb, if◌then◌else◌, arith, List, [],
  ◌∷◌, refl, both_branches,
}

pub data State : Type 0 where
  idle : State
  playing : State
  completed : State
  timeout : State

-- `synthesis_task_model`
pub record Task : Type 0 where
  pub state : State
  pub phrase_id : ℕ
  pub start_cycle : ℕ
  pub timeout_cycle : ℕ
  pub signal_completed : Bool
  pub signal_timeout : Bool
  pub alarm_not_responding : Bool

unfoldable pub reset : Task
reset = record {
  state = State.idle;
  phrase_id = 0;
  start_cycle = 0;
  timeout_cycle = 0;
  signal_completed = false;
  signal_timeout = false;
  alarm_not_responding = false;
}

unfoldable pub start_phrase : ℕ → ℕ → ℕ → Task → Task
start_phrase phrase_id start_cycle timeout_cycle t = record {
  state = State.playing;
  phrase_id = phrase_id;
  start_cycle = start_cycle;
  timeout_cycle = timeout_cycle;
  signal_completed = false;
  signal_timeout = false;
  alarm_not_responding = false;
}

abbrev pub is_playing : State → Bool
is_playing State.playing = true
is_playing _ = false

abbrev pub timed_out : Task → Task
timed_out t = record t { state = State.timeout; signal_timeout = true; alarm_not_responding = true }

unfoldable pub mark_phrase_completed : ℕ → Task → Task
mark_phrase_completed cycle t =
    if not (is_playing t.state)
    then t
    else if ltb t.timeout_cycle cycle
    then timed_out t
    else record t { state = State.completed; signal_completed = true }

unfoldable pub tick : ℕ → Task → Task
tick cycle t =
    if not (is_playing t.state) then t else if leb cycle t.timeout_cycle then t else timed_out t

pub data Call : Type 0 where
  reset_call : Call
  start_call : ℕ → ℕ → ℕ → Call
  completed_call : ℕ → Call
  tick_call : ℕ → Call

unfoldable pub step : Call → Task → Task
step Call.reset_call t = reset
step (Call.start_call phrase from to) t = start_phrase phrase from to t
step (Call.completed_call cycle) t = mark_phrase_completed cycle t
step (Call.tick_call cycle) t = tick cycle t

unfoldable pub run : List Call → Task → Task
run [] t = t
run (c ∷ calls) t = run calls (step c t)

-- The signals say how the phrase ended, and the alarm goes with the timeout.
abbrev SignalsFit : State → Bool → Bool → Bool → Type 0
SignalsFit State.idle done late alarm = (done ≡ false) × (late ≡ false) × (alarm ≡ false)
SignalsFit State.playing done late alarm = (done ≡ false) × (late ≡ false) × (alarm ≡ false)
SignalsFit State.completed done late alarm = (done ≡ true) × (late ≡ false) × (alarm ≡ false)
SignalsFit State.timeout done late alarm = (done ≡ false) × (late ≡ true) × (alarm ≡ true)

abbrev pub Agrees : Task → Type 0
Agrees t = SignalsFit t.state t.signal_completed t.signal_timeout t.alarm_not_responding

mark_phrase_completed-Agrees :
    (cycle : ℕ) (t : Task) → Agrees t → Agrees (mark_phrase_completed cycle t)
unfolding mark_phrase_completed
mark_phrase_completed-Agrees cycle t h = ended t.state h
  where
    ended :
        (s : State)
        → SignalsFit s t.signal_completed t.signal_timeout t.alarm_not_responding
        → Agrees (
            if not (is_playing s)
            then record t { state = s }
            else if ltb t.timeout_cycle cycle
            then timed_out t
            else record t { state = State.completed; signal_completed = true })
    ended State.idle h = h
    ended State.playing h =
        both_branches (λ (u : Task). Agrees u) (ltb t.timeout_cycle cycle) _ _ (h.0, refl, refl)
          (refl, h.1, h.2)
    ended State.completed h = h
    ended State.timeout h = h

tick-Agrees : (cycle : ℕ) (t : Task) → Agrees t → Agrees (tick cycle t)
unfolding tick
tick-Agrees cycle t h = late t.state h
  where
    late :
        (s : State)
        → SignalsFit s t.signal_completed t.signal_timeout t.alarm_not_responding
        → Agrees (
            if not (is_playing s)
            then record t { state = s }
            else if leb cycle t.timeout_cycle
            then record t { state = s }
            else timed_out t)
    late State.idle h = h
    late State.playing h =
        both_branches (λ (u : Task). Agrees u) (leb cycle t.timeout_cycle) _ _ h (h.0, refl, refl)
    late State.completed h = h
    late State.timeout h = h

run-kept : (calls : List Call) (t : Task) → Agrees t → Agrees (run calls t)
unfolding run step reset start_phrase
run-kept [] t h = h
run-kept (Call.reset_call ∷ calls) t h = run-kept calls reset (refl, refl, refl)
run-kept (Call.start_call phrase from to ∷ calls) t h =
    run-kept calls (start_phrase phrase from to t) (refl, refl, refl)
run-kept (Call.completed_call cycle ∷ calls) t h =
    run-kept calls (mark_phrase_completed cycle t) (mark_phrase_completed-Agrees cycle t h)
run-kept (Call.tick_call cycle ∷ calls) t h = run-kept calls (tick cycle t) (tick-Agrees cycle t h)

-- After a reset and any calls, the signals say how the phrase ended: at most one of them is raised, and
-- the alarm goes with the timeout.
pub run-Agrees : (calls : List Call) → Agrees (run calls reset)
unfolding reset
run-Agrees calls = run-kept calls reset (refl, refl, refl)
