-- ===== src/Am8048/Invariant/Run.antt =====
-- The whole state behind an instruction with callbacks, and in a run.
use coin_line_emu.Base.{
  both_branches, ℕ, zero, suc, ◌+◌, ◌-◌, ◌*◌, ◌/◌, ◌%◌, ◌≡◌, refl, subst, some, arith, bit_and,
  bit_or, ◌==◌, if◌then◌else◌, u8, u64, bit_of, Bool-cases, inl, inr,
}
use coin_line_emu.Base.Bounds.{bit_or-bound}
use coin_line_emu.Am8048.{Callbacks, Cpu, fetch}
use coin_line_emu.Am8048.Decode.{
  Cond, Instr, decode, takes_two, idl, ret, retr, stop_tcnt, ins_bus, in_port, movd_a_p, outl,
  movd_p_a, orl_port, anl_port, orld_p, anld_p, movx_a_r, movx_r_a, jump_if, unsupported,
}
use coin_line_emu.Am8048.Execute.{
  execute, conditional_jump, drive, drive_expander, input, latch, port_in, ext_in, ext_addr,
}
use coin_line_emu.Am8048.Run.{
  idle_ticks, ticks, mask_timer, interrupts, trace_interrupt, enter_interrupt, run_instruction,
  execute_from, execute_one, step_loop, step_cycles,
}
use coin_line_emu.Am8048.Invariant.{WellFormed, fetch-IsByte}
use coin_line_emu.Am8048.Invariant.Memory.{execute_cpu-WellFormed}
use coin_line_emu.Am8048.Invariant.Cycle.{
  put_a, put_latch, put_counters, fetch-WellFormed, ticks-WellFormed, idle_ticks-WellFormed,
  mask_timer-WellFormed, enter_interrupt-WellFormed,
}
use coin_line_emu.Am8048.Cycles.{step_cycles_ends}

module _ {E : Type 0} (cb : Callbacks E) where
  -- The state of an instruction's result.
  abbrev ResultWellFormed : Cpu × E × ℕ → Type 0
  ResultWellFormed r = WellFormed r.0

  abbrev ResultState : Cpu × E → Type 0
  ResultState r = WellFormed r.0

  conditional_jump-WellFormed :
      (cond : Cond) (c : Cpu) (e : E) → WellFormed c → WellFormed (conditional_jump cb cond c e)
  unfolding conditional_jump
  conditional_jump-WellFormed cond c e w =
      let d = (fetch c).0 in
      let f = fetch-WellFormed c w in
      let addr = (fetch c).1 in
      let low = fetch-IsByte c w in
      let page : ℕ = d.pc / 256 * 256 in
      let target = bit_or-bound 12 page addr (omega (arith, f.pc_bound)) (omega arith) in
      put_counters d (conditional_jump cb cond c e) f (ground arith) (ground arith) (ground arith)
        (ground arith, ground arith, ground arith)
        (
          ground (arith, f.t_byte),
          ground (arith, f.prescaler_bound),
          ground (arith, f.pc_bound, target),
        )

  execute-WellFormed :
      (op : ℕ) (i : Instr) (c : Cpu) (e : E) → WellFormed c → WellFormed (execute cb op i c e).0
  unfolding execute drive drive_expander
  execute-WellFormed op ins_bus c e w =
      put_a c (u8 (bit_and (port_in cb 0 e) (latch 0 c))) w (omega arith)
  execute-WellFormed op (in_port p) c e w =
      put_a c (u8 (bit_and (port_in cb p e) (latch p c))) w (omega arith)
  execute-WellFormed op (movd_a_p p) c e w =
      put_a c (bit_and (port_in cb p e) (latch p c) % 16) w (omega arith)
  execute-WellFormed op (outl p) c e w = put_latch p c.a c w w.a_byte
  execute-WellFormed op (movd_p_a p) c e w = put_latch p c.a c w w.a_byte
  execute-WellFormed op (orl_port p) c e w =
      let (d, v) = fetch c in
      put_latch p (u8 (bit_or (latch p d) v)) d (fetch-WellFormed c w) (omega arith)
  execute-WellFormed op (anl_port p) c e w =
      let (d, v) = fetch c in
      put_latch p (u8 (bit_and (latch p d) v)) d (fetch-WellFormed c w) (omega arith)
  execute-WellFormed op (orld_p p) c e w =
      put_latch p (u8 (bit_or (latch p c / 16 * 16) (bit_or (latch p c) c.a % 16))) c w
        (omega arith)
  execute-WellFormed op (anld_p p) c e w =
      put_latch p (u8 (bit_or (latch p c / 16 * 16) (bit_and (latch p c) c.a % 16))) c w
        (omega arith)
  execute-WellFormed op (movx_a_r r) c e w = put_a c (ext_in cb (ext_addr r c) e) w (ground arith)
  execute-WellFormed op (movx_r_a r) c e w = w
  execute-WellFormed op (jump_if cond) c e w = conditional_jump-WellFormed cond c e w
  execute-WellFormed op (unsupported code) c e w = w
  execute-WellFormed op idl c e w = execute_cpu-WellFormed c w idl
  execute-WellFormed op ret c e w = execute_cpu-WellFormed c w ret
  execute-WellFormed op retr c e w = execute_cpu-WellFormed c w retr
  execute-WellFormed op stop_tcnt c e w = execute_cpu-WellFormed c w stop_tcnt
  execute-WellFormed op _ c e w = execute_cpu-WellFormed c w _

  execute_from-WellFormed :
      (n : ℕ) (c : Cpu) (e : E) → WellFormed c → WellFormed (execute_from cb n c e).0
  unfolding execute_from run_instruction
  execute_from-WellFormed n c e w =
      let op = (fetch c).1 in
      let r = execute cb op (decode op) (fetch c).0 e in
      let total = n + bit_of (takes_two (decode op)) in
      let executed = execute-WellFormed op (decode op) (fetch c).0 e (fetch-WellFormed c w) in
      let stopped : Cpu = record c { cycles_executed = u64 (c.cycles_executed + n) } in
      let ran : Cpu × E × ℕ = (ticks total (input cb 1 r.1) r.0, r.1, total) in
      let idle : Cpu × E × ℕ = (idle_ticks n c, e, n) in
      both_branches ResultWellFormed c.stop_mode (stopped, e, n) (if c.idle_mode then idle else ran)
        (put_counters c stopped w refl refl refl (refl, refl, refl)
          (w.t_byte, w.prescaler_bound, w.pc_bound))
        (both_branches ResultWellFormed c.idle_mode idle ran (idle_ticks-WellFormed n c w)
          (ticks-WellFormed total (input cb 1 r.1) r.0 executed))

  execute_one-WellFormed : (c : Cpu) (e : E) → WellFormed c → WellFormed (execute_one cb c e).0
  unfolding execute_one
  execute_one-WellFormed c0 e w =
      let c = mask_timer c0 in
      let masked = mask_timer-WellFormed c0 w in
      let d = enter_interrupt c in
      let e1 = trace_interrupt cb c e in
      both_branches ResultWellFormed (interrupts c) (execute_from cb 3 d e1) (execute_from cb 1 c e)
        (execute_from-WellFormed 3 d e1 (enter_interrupt-WellFormed c masked))
        (execute_from-WellFormed 1 c e masked)

  step_loop-WellFormed :
      (fuel n : ℕ) (c : Cpu) (e : E) (r : Cpu × E)
      → WellFormed c
      → step_loop cb fuel n c e ≡ some r
      → WellFormed r.0
  unfolding step_loop
  step_loop-WellFormed zero n c e r w h =
      let same : (c, e) ≡ r = ground (arith, h) in subst ResultState same w
  step_loop-WellFormed (suc fuel) n c e r w h =
      let one = execute_one cb c e in
      let next = execute_one-WellFormed c e w in
      elim (Bool-cases (n == 0)) [
        | inl done ↦ let same : (c, e) ≡ r = ground (arith, h, done) in subst ResultState same w
        | inr more ↦ elim (Bool-cases (one.2 == 0)) [
          | inl none_spent ↦
              let same : (one.0, one.1) ≡ r = ground (arith, h, more, none_spent) in
              subst ResultState same next
          | inr some_spent ↦
              step_loop-WellFormed fuel (n - one.2) one.0 one.1 r next
                (ground (arith, h, more, some_spent))
        ]
      ]

  -- From a state with its widths, `step_cycles` ends in one.
  pub step_cycles-WellFormed :
      (n : ℕ) (c : Cpu) (e : E)
      → WellFormed c
      → (r : Cpu × E) × (step_cycles cb n c e ≡ some r) × WellFormed r.0
  unfolding step_cycles
  step_cycles-WellFormed n c e w =
      let (r, s, ran, least, most, total) = step_cycles_ends cb n c e in
      (r, ran, step_loop-WellFormed n n c e r w ran)
