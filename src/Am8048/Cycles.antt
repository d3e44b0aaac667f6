-- ===== src/Am8048/Cycles.antt =====
-- The cycle counter: what an instruction spends, and what `step_cycles` executes.
use coin_line_emu.Base.{
  ℕ, zero, suc, ◌+◌, ◌-◌, ◌≤◌, ◌≡◌, refl, Bool, false, some, arith, ◌==◌, if◌then◌else◌, u64,
  Bool-cases, inl, inr, bit_of,
}
use coin_line_emu.Am8048.{
  Callbacks, Cpu, fetch, write_ram, write_reg, write_indirect, push_state, pop_state, jump_page,
  apply_alu_flags_add,
}
use coin_line_emu.Am8048.Decode.{Instr, decode, takes_two, idl, ret, retr, stop_tcnt, jump_if}
use coin_line_emu.Am8048.Execute.{
  operand, add_to_a, rotate_right_carry, rotate_left_carry, decimal_adjust, decrement_jump,
  exchange_digit, execute_cpu, conditional_jump, drive, drive_expander, execute, input,
}
use coin_line_emu.Am8048.Run.{
  count_up, idle_tick, idle_ticks, tick, ticks, mask_timer, trace_interrupt, enter_interrupt,
  run_instruction, execute_from, execute_one, step_loop, step_cycles,
}

execute_cpu-cycles : (i : Instr) (c : Cpu) → (execute_cpu i c).cycles_executed ≡ c.cycles_executed
unfolding execute_cpu fetch write_ram write_reg write_indirect push_state pop_state jump_page
    apply_alu_flags_add add_to_a rotate_right_carry rotate_left_carry decimal_adjust decrement_jump
    exchange_digit operand
execute_cpu-cycles _ c = ground arith

push_state-cycles : (c : Cpu) → (push_state c).cycles_executed ≡ c.cycles_executed
unfolding push_state write_ram
push_state-cycles c = refl

enter_interrupt-cycles : (c : Cpu) → (enter_interrupt c).cycles_executed ≡ c.cycles_executed
unfolding enter_interrupt
enter_interrupt-cycles c = ground (arith, push_state-cycles c)

tick-cycles : (t1 : Bool) (c : Cpu) → (tick t1 c).cycles_executed ≡ u64 (c.cycles_executed + 1)
unfolding tick count_up
tick-cycles t1 c = ground arith

ticks-cycles :
    (n : ℕ) (t1 : Bool) (c : Cpu) → u64 (ticks n t1 c).cycles_executed ≡ u64 (c.cycles_executed + n)
unfolding ticks
ticks-cycles zero t1 c = omega arith
ticks-cycles (suc n) t1 c = omega (arith, tick-cycles t1 c, ticks-cycles n t1 (tick t1 c))

idle_tick-cycles : (c : Cpu) → (idle_tick c).cycles_executed ≡ u64 (c.cycles_executed + 1)
unfolding idle_tick count_up
idle_tick-cycles c = ground arith

idle_ticks-cycles :
    (n : ℕ) (c : Cpu) → u64 (idle_ticks n c).cycles_executed ≡ u64 (c.cycles_executed + n)
unfolding idle_ticks
idle_ticks-cycles zero c = omega arith
idle_ticks-cycles (suc n) c = omega (arith, idle_tick-cycles c, idle_ticks-cycles n (idle_tick c))

module _ {E : Type 0} (cb : Callbacks E) where
  execute-cycles :
      (op : ℕ) (i : Instr) (c : Cpu) (e : E)
      → (execute cb op i c e).0.cycles_executed ≡ c.cycles_executed
  unfolding execute fetch conditional_jump drive drive_expander
  execute-cycles op ret c e = execute_cpu-cycles ret c
  execute-cycles op retr c e = execute_cpu-cycles retr c
  execute-cycles op idl c e = execute_cpu-cycles idl c
  execute-cycles op stop_tcnt c e = execute_cpu-cycles stop_tcnt c
  execute-cycles op (jump_if cond) c e = ground arith
  execute-cycles op i c e = ground (arith, execute_cpu-cycles i c)

  -- The counter grows by what is spent, between one cycle and four.
  execute_from-spent :
      (n : ℕ) (c : Cpu) (e : E)
      → let r = execute_from cb n c e in
        (u64 r.0.cycles_executed ≡ u64 (c.cycles_executed + r.2)) × (n ≤ r.2) × (r.2 ≤ n + 1)
  unfolding execute_from run_instruction fetch
  execute_from-spent n c e =
      let op = (fetch c).1 in
      let c1 = (fetch c).0 in
      let i = decode op in
      let r = execute cb op i c1 e in
      let total = n + bit_of (takes_two i) in
      let run = ticks-cycles total (input cb 1 r.1) r.0 in
      let kept = execute-cycles op i c1 e in
      let idle = idle_ticks-cycles n c in
      let width : bit_of (takes_two i) ≤ 1 = ground arith in ground (arith, run, kept, idle, width)

  execute_one-spent :
      (c : Cpu) (e : E)
      → let r = execute_one cb c e in
        (u64 r.0.cycles_executed ≡ u64 (c.cycles_executed + r.2)) × (1 ≤ r.2) × (r.2 ≤ 4)
  unfolding execute_one
  execute_one-spent c0 e =
      let c = mask_timer c0 in
      let kept : c.cycles_executed ≡ c0.cycles_executed = ground arith in
      ground (
        arith,
        kept,
        enter_interrupt-cycles c,
        execute_from-spent 3 (enter_interrupt c) (trace_interrupt cb c e),
        execute_from-spent 1 c e,
      )

  step_loop-spent :
      (fuel n : ℕ) (c : Cpu) (e : E)
      → n ≤ fuel
      → (r : Cpu × E) × (s : ℕ) × (step_loop cb fuel n c e ≡ some r)
        × (n ≤ s)
        × (s ≤ (if n == 0 then 0 else n + 3))
        × (u64 r.0.cycles_executed ≡ u64 (c.cycles_executed + s))
  unfolding step_loop
  step_loop-spent zero n c e h =
      ((c, e), 0, ground (arith, h), ground (arith, h), ground arith, omega arith)
  step_loop-spent (suc fuel) n c e h = elim (Bool-cases (n == 0)) [
    | inl done ↦ ((c, e), 0, ground (arith, done), ground (arith, done), ground arith, omega arith)
    | inr more ↦
        let one = execute_one cb c e in
        let (counted, least, most) = execute_one-spent c e in
        let left : n - one.2 ≤ fuel = ground (arith, least, h) in
        let positive : (one.2 == 0) ≡ false = ground (arith, least) in
        let (r, s, ran, enough, over, total) = step_loop-spent fuel (n - one.2) one.0 one.1 left in
        (
          r,
          one.2 + s,
          ground (arith, more, positive, ran),
          omega (arith, enough),
          ground (arith, more, over, most),
          omega (arith, counted, total),
        )
  ]

  -- For every program, callbacks and number of cycles, `step_cycles` ends: it executes at least the
  -- cycles asked for and at most three more, and the cycle counter grows by just those, modulo
  -- 2 ^ 64.
  pub step_cycles_ends :
      (n : ℕ) (c : Cpu) (e : E)
      → (r : Cpu × E) × (s : ℕ) × (step_cycles cb n c e ≡ some r)
        × (n ≤ s)
        × (s ≤ (if n == 0 then 0 else n + 3))
        × (u64 r.0.cycles_executed ≡ u64 (c.cycles_executed + s))
  unfolding step_cycles
  step_cycles_ends n c e = step_loop-spent n n c e (omega arith)
