-- ===== src/Am8048/Run.antt =====
-- `execute_one` and `step_cycles`: interrupts, the idle and stop modes, the timer.
use coin_line_emu.Base.{
  ℕ, zero, suc, ◌+◌, ◌-◌, ◌%◌, Bool, true, false, not, ◌&&◌, ◌||◌, Option, none, some, ◌==◌,
  if◌then◌else◌, u8, u64, bit_of,
}
use coin_line_emu.Am8048.{Callbacks, Cpu, fetch, push_state}
use coin_line_emu.Am8048.Decode.{decode, takes_two}
use coin_line_emu.Am8048.Execute.{input, trace_event, execute}

-- The timer's register, with its overflow.
unfoldable pub count_up : Cpu → Cpu
count_up c =
    let c1 = record c { t = u8 (c.t + 1) } in
    if c1.t == 0 then record c1 { t_req = true; t_flag = true } else c1

-- A cycle in the idle mode.
unfoldable pub idle_tick : Cpu → Cpu
idle_tick c0 =
    let c = record c0 { prescaler = (c0.prescaler + 1) % 32 } in
    let c1 = if c.tmr_on && not c.tmr_mode_counter && c.prescaler == 0 then count_up c else c in
    record c1 { cycles_executed = u64 (c1.cycles_executed + 1) }

unfoldable pub idle_ticks : ℕ → Cpu → Cpu
idle_ticks zero c = c
idle_ticks (suc n) c = idle_ticks n (idle_tick c)

-- A cycle behind an instruction, at the level `t1_now` of test input 1.
unfoldable pub tick : Bool → Cpu → Cpu
tick t1_now c0 =
    let c = record c0 { prescaler = (c0.prescaler + 1) % 32 } in
    let falls = not t1_now && not (c.t1_prev == 0) in
    let tmr_inc = if c.tmr_mode_counter then falls else c.prescaler == 0 in
    let c1 = if c.tmr_on && tmr_inc then count_up c else c in
    record c1 { t1_prev = bit_of t1_now; cycles_executed = u64 (c1.cycles_executed + 1) }

unfoldable pub ticks : ℕ → Bool → Cpu → Cpu
ticks zero t1_now c = c
ticks (suc n) t1_now c = ticks n t1_now (tick t1_now c)

-- A disabled timer interrupt requests nothing.
abbrev pub mask_timer : Cpu → Cpu
mask_timer c = if not c.t_ena then record c { t_req = false } else c

abbrev pub ext_requested : Cpu → Bool
ext_requested c = c.i_ena && c.ext_irq

-- An interrupt is taken.
abbrev pub interrupts : Cpu → Bool
interrupts c = not c.in_irq && (ext_requested c || (c.t_ena && (c.t_req || c.timer_irq)))

unfoldable pub enter_interrupt : Cpu → Cpu
enter_interrupt c =
    let c1 = push_state c in
    if ext_requested c
    then record c1 { pc = 0x0003; in_irq = true; idle_mode = false; stop_mode = false }
    else record c1 {
      pc = 0x0007;
      in_irq = true;
      t_req = false;
      idle_mode = false;
      stop_mode = false;
    }

module _ {E : Type 0} (cb : Callbacks E) where
  -- The trace of an interrupt, which comes in front of the end of the idle and stop modes.
  abbrev pub trace_interrupt : Cpu → E → E
  trace_interrupt c e =
      if ext_requested c
      then trace_event cb "irq_enter_ext" 0x03 c e
      else trace_event cb "irq_enter_timer" 0x07 c e

  -- An instruction and the cycles that it takes, on top of `cycles`.
  unfoldable pub run_instruction : ℕ → Cpu → E → Cpu × E × ℕ
  run_instruction cycles c e =
      let (c1, op) = fetch c in
      let total = cycles + bit_of (takes_two (decode op)) in
      let (c2, e2) = execute cb op (decode op) c1 e in (ticks total (input cb 1 e2) c2, e2, total)

  -- `execute_one` behind the interrupts.
  unfoldable pub execute_from : ℕ → Cpu → E → Cpu × E × ℕ
  execute_from cycles c e =
      if c.stop_mode
      then (record c { cycles_executed = u64 (c.cycles_executed + cycles) }, e, cycles)
      else if c.idle_mode
      then (idle_ticks cycles c, e, cycles)
      else run_instruction cycles c e

  unfoldable pub execute_one : Cpu → E → Cpu × E × ℕ
  execute_one c0 e =
      let c = mask_timer c0 in
      if interrupts c
      then execute_from 3 (enter_interrupt c) (trace_interrupt c e)
      else execute_from 1 c e

  -- The loop of `step_cycles`; `none` is fuel that ran out.
  unfoldable pub step_loop : ℕ → ℕ → Cpu → E → Option (Cpu × E)
  step_loop zero cycles c e = if cycles == 0 then some (c, e) else none
  step_loop (suc fuel) cycles c e = elim (cycles == 0) [
    | true ↦ some (c, e)
    | false ↦
        let (c1, e1, spent) = execute_one c e in
        elim (spent == 0) [ true ↦ some (c1, e1) | false ↦ step_loop fuel (cycles - spent) c1 e1 ]
  ]

  -- Each turn spends a cycle at least, so the number of cycles is enough fuel.
  unfoldable pub step_cycles : ℕ → Cpu → E → Option (Cpu × E)
  step_cycles cycles c e = step_loop cycles cycles c e
