-- ===== src/Am8048/Invariant/Registers.antt =====
-- The registers behind an instruction.
use coin_line_emu.Base.Bounds.{
  bit_or-bound, bit_and-bound, bit_xor_carry, bit_xor_all, bit_xor_flag, bit_xor_lowest,
}
use coin_line_emu.Base.{
  ℕ, ◌+◌, ◌*◌, ◌/◌, ◌%◌, ◌<◌, not, ◌&&◌, arith, bit_or, if◌then◌else◌, u8, u16, tests,
}
use coin_line_emu.Am8048.{
  Cpu, rom_byte, fetch, write_ram, write_reg, write_indirect, push_state, pop_state, jump_page,
  put_flag, apply_alu_flags_add, aux_carry,
}
use coin_line_emu.Am8048.Decode.{
  Arg, Instr, mov_a_r, mov_a_ind, mov_a_imm, movp, movp3, xch_r, xch_ind, cpl_a, cpl_f1, clr_c,
  clr_f0, cpl_c, cpl_f0, sel_rb, da_a, add, addc, jmp, call, jmpp, djnz, imm, reg, ind,
}
use coin_line_emu.Am8048.Execute.{
  operand, add_to_a, rotate_right_carry, rotate_left_carry, decimal_adjust, decrement_jump,
  exchange_digit, execute_cpu,
}
use coin_line_emu.Am8048.Invariant.{
  WellFormed, rom_byte-IsByte, put_flag-IsByte, read_reg-IsByte, read_indirect-IsByte, fetch-IsByte,
}

module _ (c : Cpu) (w : WellFormed c) where
  pub execute_cpu-a : (i : Instr) → (execute_cpu i c).a < 256
  unfolding execute_cpu fetch write_ram write_reg write_indirect push_state pop_state jump_page
      apply_alu_flags_add add_to_a rotate_right_carry rotate_left_carry decimal_adjust
      decrement_jump exchange_digit operand
  execute_cpu-a (mov_a_r r) = read_reg-IsByte c w r
  execute_cpu-a (mov_a_ind r) = read_indirect-IsByte c w r
  execute_cpu-a mov_a_imm = fetch-IsByte c w
  execute_cpu-a movp = rom_byte-IsByte (bit_or (c.pc / 256 % 16 * 256) c.a) c w.rom_bytes
  execute_cpu-a movp3 = rom_byte-IsByte (bit_or 0x0300 c.a) c w.rom_bytes
  execute_cpu-a (xch_r r) = read_reg-IsByte c w r
  execute_cpu-a (xch_ind r) = read_indirect-IsByte c w r
  execute_cpu-a cpl_a = bit_xor_all c.a w.a_byte
  execute_cpu-a _ = ground (arith, w.a_byte, w.psw_byte, w.t_byte)

  pub execute_cpu-t : (i : Instr) → (execute_cpu i c).t < 256
  unfolding execute_cpu fetch write_ram write_reg write_indirect push_state pop_state jump_page
      apply_alu_flags_add add_to_a rotate_right_carry rotate_left_carry decimal_adjust
      decrement_jump exchange_digit operand
  execute_cpu-t _ = ground (arith, w.a_byte, w.t_byte)

  pub execute_cpu-flags_f1 : (i : Instr) → (execute_cpu i c).flags_f1 < 2
  unfolding execute_cpu fetch write_ram write_reg write_indirect push_state pop_state jump_page
      apply_alu_flags_add add_to_a rotate_right_carry rotate_left_carry decimal_adjust
      decrement_jump exchange_digit operand
  execute_cpu-flags_f1 cpl_f1 = bit_xor_lowest c.flags_f1 w.f1_bit
  execute_cpu-flags_f1 _ = ground (arith, w.f1_bit)

  pub execute_cpu-prescaler : (i : Instr) → (execute_cpu i c).prescaler < 32
  unfolding execute_cpu fetch write_ram write_reg write_indirect push_state pop_state jump_page
      apply_alu_flags_add add_to_a rotate_right_carry rotate_left_carry decimal_adjust
      decrement_jump exchange_digit operand
  execute_cpu-prescaler _ = ground (arith, w.prescaler_bound)

  apply_alu_flags_add-psw :
      (a b res : ℕ) (d : Cpu) → d.psw < 256 → (apply_alu_flags_add a b res d).psw < 256
  unfolding apply_alu_flags_add
  apply_alu_flags_add-psw a b res d h =
      let first = put_flag-IsByte (tests res 0x100) 0x80 d.psw (omega arith) h in
      put_flag-IsByte (aux_carry a b res) 0x40 (put_flag (tests res 0x100) 0x80 d.psw) (omega arith)
        first

  add_to_a-psw : (v c_in : ℕ) (d : Cpu) → d.psw < 256 → (add_to_a v c_in d).psw < 256
  unfolding add_to_a
  add_to_a-psw v c_in d h = apply_alu_flags_add-psw d.a (u8 (v + c_in)) (u16 (d.a + v + c_in)) d h

  operand-psw : (arg : Arg) → (operand arg c).0.psw < 256
  unfolding operand fetch
  operand-psw imm = w.psw_byte
  operand-psw (reg r) = w.psw_byte
  operand-psw (ind r) = w.psw_byte

  pub execute_cpu-psw : (i : Instr) → (execute_cpu i c).psw < 256
  unfolding execute_cpu fetch write_ram write_reg write_indirect push_state pop_state jump_page
      rotate_right_carry rotate_left_carry decimal_adjust decrement_jump exchange_digit operand
  execute_cpu-psw clr_c = bit_and-bound 8 c.psw 0x7f w.psw_byte
  execute_cpu-psw clr_f0 = bit_and-bound 8 c.psw 0xdf w.psw_byte
  execute_cpu-psw cpl_c = bit_xor_carry c.psw w.psw_byte
  execute_cpu-psw cpl_f0 = bit_xor_flag c.psw w.psw_byte
  execute_cpu-psw (sel_rb bank) = put_flag-IsByte bank 0x10 c.psw (omega arith) w.psw_byte
  execute_cpu-psw da_a =
      ground (arith, w.psw_byte, bit_or-bound 8 c.psw 0x80 w.psw_byte (omega arith))
  execute_cpu-psw (add arg) = let r = operand arg c in add_to_a-psw r.1 0 r.0 (operand-psw arg)
  execute_cpu-psw (addc arg) =
      let r = operand arg c in
      add_to_a-psw r.1 (if tests r.0.psw 0x80 then 1 else 0) r.0 (operand-psw arg)
  execute_cpu-psw _ = ground (arith, w.psw_byte)

  jump_page-pc : (op low : ℕ) (d : Cpu) → low < 256 → (jump_page op low d).pc < 4096
  unfolding jump_page
  jump_page-pc op low d h =
      let bank : ℕ = if d.flag_mb && not d.in_irq then 0x0800 else 0x0000 in
      let hi : ℕ = op / 32 % 8 * 256 in
      let small : bank < 4096 = ground arith in
      let inner = bit_or-bound 12 hi low (omega arith) (omega arith) in
      let outer = bit_or-bound 12 (bit_or hi low) bank inner small in omega (arith, outer)

  pub execute_cpu-pc : (i : Instr) → (execute_cpu i c).pc < 4096
  unfolding execute_cpu fetch write_ram write_reg write_indirect push_state pop_state jump_page
      apply_alu_flags_add add_to_a rotate_right_carry rotate_left_carry decimal_adjust
      decrement_jump exchange_digit operand
  execute_cpu-pc (jmp op) = jump_page-pc op (fetch c).1 (fetch c).0 (fetch-IsByte c w)
  execute_cpu-pc (call op) = jump_page-pc op (fetch c).1 (push_state (fetch c).0) (fetch-IsByte c w)
  execute_cpu-pc jmpp =
      let page = c.pc / 256 % 16 * 256 in
      let low = rom_byte (bit_or page c.a) c in
      let byte = rom_byte-IsByte (bit_or page c.a) c w.rom_bytes in
      let all = bit_or-bound 12 page low (omega arith) (omega arith) in omega (arith, all)
  execute_cpu-pc (djnz r) =
      let low = (fetch c).1 in
      let page = (c.pc + 1) % 4096 / 256 * 256 in
      let byte = fetch-IsByte c w in
      let all = bit_or-bound 12 page low (omega arith) (omega arith) in ground (arith, all)
  execute_cpu-pc _ = ground (arith, w.pc_bound)
