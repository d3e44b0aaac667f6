-- ===== src/Supervision/Cutoff.antt =====
-- What the timer of `step_clock_tick` reports at which tick.
use coin_line_emu.Base.{
  ℕ, suc, ◌+◌, ◌^◌, ◌<◌, ◌≤◌, ◌≡◌, refl, subst, true, false, not, ◌&&◌, List, [], ◌∷◌, ◌++◌, arith,
  length, leb, ltb, ◌==◌, if◌then◌else◌,
}
use native.Mathlib.Decide.{dec_lt}
use coin_line_emu.Supervision.{
  Fsm, Windows, Input, tick_input, wink_window, defer_window, cutoff_window, step_clock_tick,
  arm_disconnect_timer, step, run, Event, make_status, make_timeout, make_disconnect, timeout,
}

-- Ticks at the given cycles and program counters.
abbrev pub ticks : List (ℕ × ℕ) → List Input
ticks [] = []
ticks ((cycle, pc) ∷ ts) = tick_input cycle pc ∷ ticks ts

-- What the `n`-th tick of an armed timer reports under the configured windows.
abbrev pub reports_at : Windows → ℕ → ℕ → ℕ → List Event
reports_at w n cycle pc =
    (if w.wink_ticks == n then make_status 0x8c cycle pc ∷ [] else [])
    ++ ((if w.defer_ticks == n then make_status 0x8e cycle pc ∷ [] else [])
        ++ (if w.cutoff_ticks == n
            then make_timeout cycle pc ∷ make_disconnect timeout cycle pc ∷ []
            else []))

-- What the ticks report from the `n`-th on, up to the cutoff.
abbrev pub schedule : Windows → ℕ → List (ℕ × ℕ) → List Event
schedule w n [] = []
schedule w n ((cycle, pc) ∷ ts) =
    let rest = schedule w (suc n) ts in
    if ltb w.cutoff_ticks n then [] else reports_at w n cycle pc ++ rest

-- The timer has counted `t` ticks, and neither a disconnect nor a late report has come.
record IsCounting (t : ℕ) (s : Fsm) : Type 0 where
  armed : s.timer_armed ≡ true
  counted : s.timer_ticks ≡ t
  quiet : s.disconnect_emitted ≡ false
  winked : s.wink_emitted ≡ (not (s.windows.wink_ticks == 0) && leb s.windows.wink_ticks t)
  deferred : s.defer_emitted ≡ (not (s.windows.defer_ticks == 0) && leb s.windows.defer_ticks t)

module _ (cycle pc t : ℕ) (s : Fsm) (v : IsCounting t s)
    (small : s.windows.cutoff_ticks < 2 ^ 32) where
  before_cutoff :
      t + 1 < s.windows.cutoff_ticks
      → let s' = (step (tick_input cycle pc) s).0 in
        IsCounting (suc t) s' × (s'.windows ≡ s.windows)
  unfolding step step_clock_tick wink_window defer_window cutoff_window
  before_cutoff early = ground (arith, v)

  at_cutoff :
      t + 1 ≡ s.windows.cutoff_ticks
      → let s' = (step (tick_input cycle pc) s).0 in
        (s'.disconnect_emitted ≡ true) × (s'.timer_armed ≡ false)
  unfolding step step_clock_tick wink_window defer_window cutoff_window
  at_cutoff now = ground (arith, v)

  reported :
      t + 1 ≤ s.windows.cutoff_ticks
      → (step (tick_input cycle pc) s).1 ≡ reports_at s.windows (suc t) cycle pc
  unfolding step step_clock_tick wink_window defer_window cutoff_window
  reported early = ground (arith, v)

-- A timer that is not armed ignores its ticks.
unarmed : (ts : List (ℕ × ℕ)) (s : Fsm) → s.timer_armed ≡ false → run (ticks ts) s ≡ (s, [])
unfolding run step step_clock_tick
unarmed [] s off = refl
unarmed ((cycle, pc) ∷ ts) s off = ground (arith, unarmed ts s)

-- Behind the cutoff nothing is due.
schedule_over :
    (w : Windows) (n : ℕ) (ts : List (ℕ × ℕ)) → w.cutoff_ticks < n → schedule w n ts ≡ []
schedule_over w n [] h = refl
schedule_over w n ((cycle, pc) ∷ ts) h = ground arith

-- What `n` ticks leave and report.
abbrev pub After : ℕ → Windows → List (ℕ × ℕ) → Fsm × List Event → Type 0
After t w ts r =
    (r.1 ≡ schedule w (suc t) ts)
    × (r.0.disconnect_emitted ≡ leb w.cutoff_ticks (t + length ts))
    × (r.0.timer_armed ≡ not (leb w.cutoff_ticks (t + length ts)))

run-After :
    (ts : List (ℕ × ℕ)) (t : ℕ) (s : Fsm)
    → IsCounting t s
    → t < s.windows.cutoff_ticks
    → s.windows.cutoff_ticks < 2 ^ 32
    → After t s.windows ts (run (ticks ts) s)
unfolding run
run-After [] t s v early small = ground (arith, v)
run-After ((cycle, pc) ∷ ts) t s v early small =
    let s' = (step (tick_input cycle pc) s).0 in
    let w = s.windows in
    let said = reported cycle pc t s v small (omega arith) in
    let next : suc t + length ts ≡ t + suc (length ts) = omega arith in
    elim (dec_lt (t + 1) w.cutoff_ticks) [
      | yes more ↦
          let (v', same) = before_cutoff cycle pc t s v small more in
          let ih = run-After ts (suc t) s' v' (rw same (omega (arith, more))) (rw same small) in
          let known : After (suc t) w ts (run (ticks ts) s') =
            subst (λ (u : Windows). After (suc t) u ts (run (ticks ts) s')) same ih in
          ground (arith, said, known, next)
      | no last ↦
          let (emitted, off) = at_cutoff cycle pc t s v small (omega arith) in
          let rest = unarmed ts s' off in
          let over = schedule_over w (suc (suc t)) ts (omega arith) in
          ground (arith, said, rest, over, next)
    ]

-- Arming a machine that has reported no disconnect and then ticking it: with a cutoff window of `k`
-- ticks, `k` positive and below 2 ^ 32, the events are exactly those of the schedule. Tick `n`, up
-- to `k`, reports status 0x8c if `n` is the wink window, then status 0x8e if it is the defer window,
-- then a timeout and a disconnect if it is `k`, each with the cycle and program counter of that
-- tick; later ticks report nothing. A disconnect is noted exactly if there are `k` ticks at least,
-- and the timer is armed exactly if there are fewer.
pub cutoff-After :
    (ts : List (ℕ × ℕ)) (s : Fsm)
    → s.disconnect_emitted ≡ false
    → 0 < s.windows.cutoff_ticks
    → s.windows.cutoff_ticks < 2 ^ 32
    → After 0 s.windows ts (run (ticks ts) (arm_disconnect_timer s))
unfolding arm_disconnect_timer
cutoff-After ts s quiet pos small =
    let s0 = record s {
      timer_armed = true;
      timer_ticks = 0;
      wink_emitted = false;
      defer_emitted = false;
    } in
    let v : IsCounting 0 s0 = ground arith in run-After ts 0 s0 v pos small
