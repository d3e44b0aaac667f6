-- ===== src/Am8048/Surrounding.antt =====
-- What the callbacks keep of the surrounding object is kept by a run.
use coin_line_emu.Base.{
  ℕ, zero, suc, ◌+◌, ◌-◌, ◌≡◌, subst, some, arith, ◌==◌, if◌then◌else◌, u8, u64, Bool-cases, inl,
  inr, bit_of, bit_or, bit_and, ◌*◌, ◌/◌, ◌%◌, both_branches,
}
use Prim.Native.String.{String}
use coin_line_emu.Am8048.{Callbacks, Cpu, fetch}
use coin_line_emu.Am8048.Decode.{
  Instr, decode, takes_two, idl, ret, retr, stop_tcnt, ins_bus, in_port, movd_a_p, outl, movd_p_a,
  orl_port, anl_port, orld_p, anld_p, movx_a_r, movx_r_a, jump_if, unsupported,
}
use coin_line_emu.Am8048.Execute.{
  execute_cpu, execute, drive, drive_expander, port_out, ext_out, port_in, ext_in, ext_addr, tones,
  trace_event, latch, set_latch, input,
}
use coin_line_emu.Am8048.Run.{
  idle_ticks, ticks, mask_timer, interrupts, ext_requested, trace_interrupt, enter_interrupt,
  run_instruction, execute_from, execute_one, step_loop, step_cycles,
}

-- The callbacks that act on the object keep the property.
pub record Keeps {E : Type 0} (cb : Callbacks E) (P : E → Type 0) : Type 0 where
  pub port_keeps : (p v : ℕ) (e : E) → P e → P (port_out cb p v e)
  pub ext_keeps : (addr v : ℕ) (e : E) → P e → P (ext_out cb addr v e)
  pub tones_keep : (c : Cpu) (e : E) → P e → P (tones cb c e)
  pub trace_keeps :
      (event : String) (v : ℕ) (c : Cpu) (e : E) → P e → P (trace_event cb event v c e)

module _ {E : Type 0} (cb : Callbacks E) (P : E → Type 0) (k : Keeps cb P) where
  execute-keeps : (op : ℕ) (i : Instr) (c : Cpu) (e : E) → P e → P (execute cb op i c e).1
  unfolding execute drive drive_expander
  execute-keeps op idl c e h = k.trace_keeps "idle_enter" op (execute_cpu idl c) e h
  execute-keeps op ret c e h = k.trace_keeps "ret" op (execute_cpu ret c) e h
  execute-keeps op retr c e h = k.trace_keeps "isr_return" op (execute_cpu retr c) e h
  execute-keeps op stop_tcnt c e h = k.trace_keeps "stop_tcnt" op (execute_cpu stop_tcnt c) e h
  execute-keeps op ins_bus c e h =
      let v = u8 (bit_and (port_in cb 0 e) (latch 0 c)) in
      k.trace_keeps "ins_bus" v (record c { a = v }) e h
  execute-keeps op (in_port p) c e h =
      let v = u8 (bit_and (port_in cb p e) (latch p c)) in
      k.trace_keeps "in_port" v (record c { a = v }) e h
  execute-keeps op (movd_a_p p) c e h =
      let v = bit_and (port_in cb p e) (latch p c) % 16 in
      k.trace_keeps "movd_a_p" v (record c { a = v }) e h
  execute-keeps op (outl p) c e h =
      k.trace_keeps "out_port" c.a (set_latch p c.a c) (port_out cb p c.a e)
        (k.port_keeps p c.a e h)
  execute-keeps op (movd_p_a p) c e h =
      let d = set_latch p c.a c in
      let e1 = port_out cb p c.a e in
      k.trace_keeps "movd_p_a" c.a d (tones cb d e1) (k.tones_keep d e1 (k.port_keeps p c.a e h))
  execute-keeps op (orl_port p) c0 e h =
      let (c, v) = fetch c0 in
      let w = u8 (bit_or (latch p c) v) in
      let d = set_latch p w c in
      k.trace_keeps "orl_port_imm" (latch p d) d (port_out cb p w e) (k.port_keeps p w e h)
  execute-keeps op (anl_port p) c0 e h =
      let (c, v) = fetch c0 in
      let w = u8 (bit_and (latch p c) v) in
      let d = set_latch p w c in
      k.trace_keeps "anl_port_imm" (latch p d) d (port_out cb p w e) (k.port_keeps p w e h)
  execute-keeps op (orld_p p) c e h =
      let w = u8 (bit_or (latch p c / 16 * 16) (bit_or (latch p c) c.a % 16)) in
      let d = set_latch p w c in
      let e1 = port_out cb p w e in
      k.trace_keeps "orld_p_a" (latch p d) d (tones cb d e1)
        (k.tones_keep d e1 (k.port_keeps p w e h))
  execute-keeps op (anld_p p) c e h =
      let w = u8 (bit_or (latch p c / 16 * 16) (bit_and (latch p c) c.a % 16)) in
      let d = set_latch p w c in
      let e1 = port_out cb p w e in
      k.trace_keeps "anld_p_a" (latch p d) d (tones cb d e1)
        (k.tones_keep d e1 (k.port_keeps p w e h))
  execute-keeps op (movx_a_r r) c e h =
      let v = ext_in cb (ext_addr r c) e in k.trace_keeps "movx_read" v (record c { a = v }) e h
  execute-keeps op (movx_r_a r) c e h =
      k.trace_keeps "movx_write" c.a c (ext_out cb (ext_addr r c) c.a e)
        (k.ext_keeps (ext_addr r c) c.a e h)
  execute-keeps op (jump_if cond) c e h = h
  execute-keeps op (unsupported code) c e h = k.trace_keeps "unsupported_opcode" code c e h
  execute-keeps op _ c e h = h

  abbrev ResultKept : Cpu × E × ℕ → Type 0
  ResultKept r = P r.1

  execute_from-keeps : (n : ℕ) (c : Cpu) (e : E) → P e → P (execute_from cb n c e).1
  unfolding execute_from run_instruction
  execute_from-keeps n c e h =
      let op = (fetch c).1 in
      let r = execute cb op (decode op) (fetch c).0 e in
      let total = n + bit_of (takes_two (decode op)) in
      let stopped : Cpu × E × ℕ =
        (record c { cycles_executed = u64 (c.cycles_executed + n) }, e, n) in
      let ran : Cpu × E × ℕ = (ticks total (input cb 1 r.1) r.0, r.1, total) in
      let idle : Cpu × E × ℕ = (idle_ticks n c, e, n) in
      both_branches ResultKept c.stop_mode stopped (if c.idle_mode then idle else ran) h (
        both_branches ResultKept c.idle_mode idle ran h
          (execute-keeps op (decode op) (fetch c).0 e h))

  execute_one-keeps : (c : Cpu) (e : E) → P e → P (execute_one cb c e).1
  unfolding execute_one
  execute_one-keeps c0 e h =
      let c = mask_timer c0 in
      let d = enter_interrupt c in
      let e1 = trace_interrupt cb c e in
      let traced : P e1 =
        both_branches P (ext_requested c) (trace_event cb "irq_enter_ext" 0x03 c e)
          (trace_event cb "irq_enter_timer" 0x07 c e) (k.trace_keeps "irq_enter_ext" 0x03 c e h)
          (k.trace_keeps "irq_enter_timer" 0x07 c e h) in
      both_branches ResultKept (interrupts c) (execute_from cb 3 d e1) (execute_from cb 1 c e)
        (execute_from-keeps 3 d e1 traced) (execute_from-keeps 1 c e h)

  abbrev StateKept : Cpu × E → Type 0
  StateKept r = P r.1

  step_loop-keeps :
      (fuel n : ℕ) (c : Cpu) (e : E) (r : Cpu × E) → P e → step_loop cb fuel n c e ≡ some r → P r.1
  unfolding step_loop
  step_loop-keeps zero n c e r h ran =
      let same : (c, e) ≡ r = ground (arith, ran) in subst StateKept same h
  step_loop-keeps (suc fuel) n c e r h ran =
      let one = execute_one cb c e in
      let next = execute_one-keeps c e h in
      elim (Bool-cases (n == 0)) [
        | inl done ↦ let same : (c, e) ≡ r = ground (arith, ran, done) in subst StateKept same h
        | inr more ↦ elim (Bool-cases (one.2 == 0)) [
          | inl none_spent ↦
              let same : (one.0, one.1) ≡ r = ground (arith, ran, more, none_spent) in
              subst StateKept same next
          | inr some_spent ↦
              step_loop-keeps fuel (n - one.2) one.0 one.1 r next
                (ground (arith, ran, more, some_spent))
        ]
      ]

  pub step_cycles-keeps :
      (n : ℕ) (c : Cpu) (e : E) (r : Cpu × E) → P e → step_cycles cb n c e ≡ some r → P r.1
  unfolding step_cycles
  step_cycles-keeps n c e r h ran = step_loop-keeps n n c e r h ran
