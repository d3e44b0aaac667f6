-- ===== src/Am8048/Execute.antt =====
-- The bodies of the instructions of `execute_one`.
use Prim.Native.String.{String}
use coin_line_emu.Base.{
  ℕ, ◌+◌, ◌-◌, ◌*◌, ◌/◌, ◌%◌, ◌^◌, Bool, true, false, not, ◌&&◌, ◌||◌, none, some, bit_and, bit_or,
  bit_xor, get_or, set, ltb, ◌==◌, if◌then◌else◌, u8, u16, tests,
}
use coin_line_emu.Am8048.{
  Callbacks, Cpu, rom_byte, fetch, read_reg, write_reg, read_indirect, write_indirect, push_state,
  pop_state, jump_page, put_flag, apply_alu_flags_add,
}
use coin_line_emu.Am8048.Decode.{
  Arg, imm, reg, ind, Cond, nonzero, zero_acc, timer_flag, flag0, flag1, interrupt_low, carry,
  acc_bit, test_input, Instr, idl, ret, retr, dec_a, inc_a, clr_a, cpl_a, mov_a_t, mov_t_a,
  mov_a_psw, mov_psw_a, clr_c, cpl_c, clr_f0, cpl_f0, clr_f1, cpl_f1, swap_a, rr_a, rl_a, rrc_a,
  rlc_a, strt_t, strt_cnt, stop_tcnt, ent0_clk, ins_bus, en_i, en_tcnti, sel_mb, sel_rb, in_port,
  movd_a_p, outl, movd_p_a, orl_port, anl_port, orld_p, anld_p, mov_r_imm, mov_r_a, mov_a_r,
  movx_a_r, movx_r_a, mov_ind_a, mov_a_ind, mov_ind_imm, dec_ind, inc_ind, inc_r, dec_r, djnz,
  xch_r, xch_ind, xchd, mov_a_imm, movp, jmpp, movp3, da_a, add, addc, orl, anl, xrl, jmp, call,
  unsupported, jump_if,
}

-- The operand of an arithmetic or logic instruction.
unfoldable pub operand : Arg → Cpu → Cpu × ℕ
operand imm c = fetch c
operand (reg r) c = (c, read_reg r c)
operand (ind r) c = (c, read_indirect r c)

-- ADD and ADDC: the sum, with its flags.
unfoldable pub add_to_a : ℕ → ℕ → Cpu → Cpu
add_to_a arg c_in c =
    let res = u16 (c.a + arg + c_in) in
    record (apply_alu_flags_add c.a (u8 (arg + c_in)) res c) { a = res % 256 }

unfoldable pub rotate_right_carry : Cpu → Cpu
rotate_right_carry c = record c {
  a = u8 (bit_or (c.a / 2) (if tests c.psw 0x80 then 0x80 else 0x00));
  psw = u8 (bit_or (bit_and c.psw (0xffffffff - 0x80)) (if tests c.a 0x01 then 0x80 else 0x00));
}

unfoldable pub rotate_left_carry : Cpu → Cpu
rotate_left_carry c = record c {
  a = u8 (bit_or (c.a * 2) (if tests c.psw 0x80 then 1 else 0));
  psw = u8 (bit_or (bit_and c.psw (0xffffffff - 0x80)) (if tests c.a 0x80 then 0x80 else 0x00));
}

unfoldable pub decimal_adjust : Cpu → Cpu
decimal_adjust c =
    let low = if tests c.psw 0x40 || ltb 9 (c.a % 16) then 0x06 else 0 in
    if tests c.psw 0x80 || ltb 9 (c.a / 16) || (ltb 9 (c.a % 16) && c.a / 16 == 9)
    then record c { psw = bit_or c.psw 0x80; a = u8 (c.a + u8 (low + 0x60)) }
    else record c { a = u8 (c.a + low) }

-- The jump to an address of the page that the program counter stands in.
abbrev pub jump_in_page : Bool → ℕ → Cpu → Cpu
jump_in_page take addr c = if take then record c { pc = bit_or (c.pc / 256 * 256) addr } else c

-- DJNZ behind its fetch.
unfoldable pub decrement_jump : ℕ → ℕ → Cpu → Cpu
decrement_jump r addr c =
    let v = u8 (read_reg r c + 0xffffffff) in jump_in_page (not (v == 0)) addr (write_reg r v c)

-- XCHD: the low nibbles are exchanged.
unfoldable pub exchange_digit : ℕ → Cpu → Cpu
exchange_digit r c =
    let memv = read_indirect r c in
    let c1 = write_indirect r (u8 (bit_or (memv / 16 * 16) (c.a % 16))) c in
    record c1 { a = u8 (bit_or (c.a / 16 * 16) (memv % 16)) }

-- The instructions that use no callback.
unfoldable pub execute_cpu : Instr → Cpu → Cpu
execute_cpu idl c = record c { idle_mode = true }
execute_cpu (en_i on) c = record c { i_ena = on }
execute_cpu (en_tcnti on) c = record c { t_ena = on }
execute_cpu ret c = pop_state false c
execute_cpu retr c = record (pop_state true c) { in_irq = false }
execute_cpu dec_a c = record c { a = u8 (c.a + 0xffffffff) }
execute_cpu inc_a c = record c { a = u8 (c.a + 1) }
execute_cpu clr_a c = record c { a = 0 }
execute_cpu cpl_a c = record c { a = bit_xor c.a 0xff }
execute_cpu mov_a_t c = record c { a = c.t }
execute_cpu mov_t_a c = record c { t = c.a }
execute_cpu mov_a_psw c = record c { a = c.psw }
execute_cpu mov_psw_a c = record c { psw = u8 (bit_or c.a 0x08) }
execute_cpu clr_c c = record c { psw = bit_and c.psw (0xff - 0x80) }
execute_cpu cpl_c c = record c { psw = bit_xor c.psw 0x80 }
execute_cpu clr_f0 c = record c { psw = bit_and c.psw (0xff - 0x20) }
execute_cpu cpl_f0 c = record c { psw = bit_xor c.psw 0x20 }
execute_cpu clr_f1 c = record c { flags_f1 = 0 }
execute_cpu cpl_f1 c = record c { flags_f1 = bit_xor c.flags_f1 1 }
execute_cpu swap_a c = record c { a = u8 (bit_or (c.a * 16) (c.a / 16)) }
execute_cpu rr_a c = record c { a = u8 (bit_or (c.a / 2) (c.a * 128)) }
execute_cpu rl_a c = record c { a = u8 (bit_or (c.a * 2) (c.a / 128)) }
execute_cpu rrc_a c = rotate_right_carry c
execute_cpu rlc_a c = rotate_left_carry c
execute_cpu (sel_mb bank) c = record c { flag_mb = bank }
execute_cpu (sel_rb bank) c = record c { psw = put_flag bank 0x10 c.psw }
execute_cpu strt_t c = record c { tmr_mode_counter = false; tmr_on = true; prescaler = 0 }
execute_cpu strt_cnt c = record c { tmr_mode_counter = true; tmr_on = true }
execute_cpu stop_tcnt c = record c {
  tmr_on = false;
  stop_mode = if c.stop_on_stop_tcnt then true else c.stop_mode;
}
execute_cpu ent0_clk c = record c { t0_clk_ena = true }
execute_cpu (mov_r_imm r) c = let (c1, v) = fetch c in write_reg r v c1
execute_cpu (mov_r_a r) c = write_reg r c.a c
execute_cpu (mov_a_r r) c = record c { a = read_reg r c }
execute_cpu (mov_ind_a r) c = write_indirect r c.a c
execute_cpu (mov_a_ind r) c = record c { a = read_indirect r c }
execute_cpu (mov_ind_imm r) c = let (c1, v) = fetch c in write_indirect r v c1
execute_cpu (dec_ind r) c = write_indirect r (u8 (read_indirect r c + 0xffffffff)) c
execute_cpu (inc_ind r) c = write_indirect r (u8 (read_indirect r c + 1)) c
execute_cpu (inc_r r) c = write_reg r (u8 (read_reg r c + 1)) c
execute_cpu (dec_r r) c = write_reg r (u8 (read_reg r c + 0xffffffff)) c
execute_cpu mov_a_imm c = let (c1, v) = fetch c in record c1 { a = v }
execute_cpu (add arg) c = let (c1, v) = operand arg c in add_to_a v 0 c1
execute_cpu (addc arg) c =
    let (c1, v) = operand arg c in add_to_a v (if tests c1.psw 0x80 then 1 else 0) c1
execute_cpu (orl arg) c = let (c1, v) = operand arg c in record c1 { a = u8 (bit_or c1.a v) }
execute_cpu (anl arg) c = let (c1, v) = operand arg c in record c1 { a = u8 (bit_and c1.a v) }
execute_cpu (xrl arg) c = let (c1, v) = operand arg c in record c1 { a = u8 (bit_xor c1.a v) }
execute_cpu (jmp op) c = let (c1, low) = fetch c in jump_page op low c1
execute_cpu (call op) c = let (c1, low) = fetch c in jump_page op low (push_state c1)
execute_cpu movp c = record c { a = rom_byte (bit_or (c.pc / 256 % 16 * 256) c.a) c }
execute_cpu jmpp c =
    let page = c.pc / 256 % 16 * 256 in
    record c { pc = u16 (bit_or page (rom_byte (bit_or page c.a) c)) }
execute_cpu movp3 c = record c { a = rom_byte (bit_or 0x0300 c.a) c }
execute_cpu (djnz r) c = let (c1, addr) = fetch c in decrement_jump r addr c1
execute_cpu (xch_r r) c = record (write_reg r c.a c) { a = read_reg r c }
execute_cpu (xch_ind r) c = record (write_indirect r c.a c) { a = read_indirect r c }
execute_cpu (xchd r) c = exchange_digit r c
execute_cpu da_a c = decimal_adjust c
execute_cpu _ c = c

-- `m_port_latch[p]`
abbrev pub latch : ℕ → Cpu → ℕ
latch p c = get_or c.port_latch p 0

abbrev pub set_latch : ℕ → ℕ → Cpu → Cpu
set_latch p v c = record c { port_latch = set c.port_latch p v }

-- The address of an external access.
abbrev pub ext_addr : ℕ → Cpu → ℕ
ext_addr r c = u16 (bit_or (latch 2 c % 16 * 256) (read_reg r c))

module _ {E : Type 0} (cb : Callbacks E) where
  -- `m_cb.read_port ? m_cb.read_port(p) : 0xff`; a port is a byte.
  abbrev pub port_in : ℕ → E → ℕ
  port_in p e = elim (cb.read_port) [ none ↦ 0xff | some f ↦ u8 (f e p) ]

  abbrev pub port_out : ℕ → ℕ → E → E
  port_out p v e = elim (cb.write_port) [ none ↦ e | some f ↦ f p v e ]

  abbrev pub ext_in : ℕ → E → ℕ
  ext_in addr e = elim (cb.read_ext_data) [ none ↦ 0xff | some f ↦ u8 (f e addr) ]

  abbrev pub ext_out : ℕ → ℕ → E → E
  ext_out addr v e = elim (cb.write_ext_data) [ none ↦ e | some f ↦ f addr v e ]

  abbrev pub input : ℕ → E → Bool
  input i e = elim (cb.read_test_input) [ none ↦ false | some f ↦ f e i ]

  abbrev pub tones : Cpu → E → E
  tones c e = elim (cb.tone_registers_changed) [ none ↦ e | some f ↦ f (latch 4 c) (latch 5 c) e ]

  abbrev pub trace_event : String → ℕ → Cpu → E → E
  trace_event event value c e = elim (cb.trace) [
    | none ↦ e
    | some f ↦ f event c.cycles_executed value e
  ]

  -- Whether a jump is taken.
  unfoldable pub holds : Cond → Cpu → E → Bool
  holds nonzero c e = not (c.a == 0)
  holds zero_acc c e = c.a == 0
  holds timer_flag c e = c.t_flag
  holds flag0 c e = tests c.psw 0x20
  holds flag1 c e = not (c.flags_f1 == 0)
  holds interrupt_low c e = c.ext_irq
  holds (carry level) c e = if level then tests c.psw 0x80 else not (tests c.psw 0x80)
  holds (acc_bit bit) c e = tests c.a (u8 (2 ^ bit))
  holds (test_input i level) c e = if level then input i e else not (input i e)

  -- JTF clears the flag that it reads.
  abbrev clear_tested : Cond → Cpu → Cpu
  clear_tested timer_flag c = record c { t_flag = false }
  clear_tested _ c = c

  unfoldable pub conditional_jump : Cond → Cpu → E → Cpu
  conditional_jump cond c0 e =
      let (c, addr) = fetch c0 in
      let take = holds cond c e in jump_in_page take addr (if take then clear_tested cond c else c)

  -- A port's latch is replaced and driven.
  unfoldable pub drive : ℕ → ℕ → Cpu → E → Cpu × E
  drive p v c e = (set_latch p v c, port_out p v e)

  -- An expander port's latch, with the tone registers behind it.
  unfoldable pub drive_expander : ℕ → ℕ → Cpu → E → Cpu × E
  drive_expander p v c e = let (c1, e1) = drive p v c e in (c1, tones c1 e1)

  unfoldable pub execute : ℕ → Instr → Cpu → E → Cpu × E
  execute op idl c e = let c1 = execute_cpu idl c in (c1, trace_event "idle_enter" op c1 e)
  execute op ret c e = let c1 = execute_cpu ret c in (c1, trace_event "ret" op c1 e)
  execute op retr c e = let c1 = execute_cpu retr c in (c1, trace_event "isr_return" op c1 e)
  execute op stop_tcnt c e =
      let c1 = execute_cpu stop_tcnt c in (c1, trace_event "stop_tcnt" op c1 e)
  execute op ins_bus c e =
      let c1 = record c { a = u8 (bit_and (port_in 0 e) (latch 0 c)) } in
      (c1, trace_event "ins_bus" c1.a c1 e)
  execute op (in_port p) c e =
      let c1 = record c { a = u8 (bit_and (port_in p e) (latch p c)) } in
      (c1, trace_event "in_port" c1.a c1 e)
  execute op (movd_a_p p) c e =
      let c1 = record c { a = bit_and (port_in p e) (latch p c) % 16 } in
      (c1, trace_event "movd_a_p" c1.a c1 e)
  execute op (outl p) c e = let (c1, e1) = drive p c.a c e in (c1, trace_event "out_port" c.a c1 e1)
  execute op (movd_p_a p) c e =
      let (c1, e1) = drive_expander p c.a c e in (c1, trace_event "movd_p_a" c.a c1 e1)
  execute op (orl_port p) c0 e =
      let (c, v) = fetch c0 in
      let (c1, e1) = drive p (u8 (bit_or (latch p c) v)) c e in
      (c1, trace_event "orl_port_imm" (latch p c1) c1 e1)
  execute op (anl_port p) c0 e =
      let (c, v) = fetch c0 in
      let (c1, e1) = drive p (u8 (bit_and (latch p c) v)) c e in
      (c1, trace_event "anl_port_imm" (latch p c1) c1 e1)
  execute op (orld_p p) c e =
      let v = u8 (bit_or (latch p c / 16 * 16) (bit_or (latch p c) c.a % 16)) in
      let (c1, e1) = drive_expander p v c e in (c1, trace_event "orld_p_a" (latch p c1) c1 e1)
  execute op (anld_p p) c e =
      let v = u8 (bit_or (latch p c / 16 * 16) (bit_and (latch p c) c.a % 16)) in
      let (c1, e1) = drive_expander p v c e in (c1, trace_event "anld_p_a" (latch p c1) c1 e1)
  execute op (movx_a_r r) c e =
      let c1 = record c { a = ext_in (ext_addr r c) e } in (c1, trace_event "movx_read" c1.a c1 e)
  execute op (movx_r_a r) c e = (c, trace_event "movx_write" c.a c (ext_out (ext_addr r c) c.a e))
  execute op (jump_if cond) c e = (conditional_jump cond c e, e)
  execute op (unsupported code) c e = (c, trace_event "unsupported_opcode" code c e)
  execute op instr c e = (execute_cpu instr c, e)
