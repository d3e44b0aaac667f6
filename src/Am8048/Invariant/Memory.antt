-- ===== src/Am8048/Invariant/Memory.antt =====
-- The memory behind an instruction, and the whole state behind it.
use coin_line_emu.Base.{
  ℕ, ◌+◌, ◌*◌, ◌/◌, ◌%◌, ◌<◌, ◌≡◌, refl, sym, subst, ap, ◌∙◌, List, arith, bit_or, if◌then◌else◌,
  u8, u16, tests, length, length-set, All, All-set,
}
use coin_line_emu.Am8048.{
  Cpu, fetch, write_ram, read_reg, write_reg, read_indirect, write_indirect, push_state, pop_state,
  jump_page, apply_alu_flags_add, reg_addr, frame_addr,
}
use coin_line_emu.Am8048.Decode.{
  Arg, Instr, xch_r, xch_ind, da_a, add, addc, call, djnz, imm, reg, ind, mov_r_imm, mov_r_a,
  mov_ind_a, mov_ind_imm, dec_ind, inc_ind, inc_r, dec_r, xchd, orl, anl, xrl,
}
use coin_line_emu.Am8048.Execute.{
  operand, add_to_a, rotate_right_carry, rotate_left_carry, decimal_adjust, decrement_jump,
  exchange_digit, execute_cpu,
}
use coin_line_emu.Am8048.Invariant.{IsByte, WellFormed, fetch-IsByte}
use coin_line_emu.Am8048.Invariant.Registers.{
  execute_cpu-a, execute_cpu-psw, execute_cpu-t, execute_cpu-pc, execute_cpu-flags_f1,
  execute_cpu-prescaler,
}

-- What an instruction leaves as it is.
execute_cpu-rom : (i : Instr) (c : Cpu) → (execute_cpu i c).rom ≡ c.rom
unfolding execute_cpu fetch write_ram write_reg write_indirect push_state pop_state jump_page
    apply_alu_flags_add add_to_a rotate_right_carry rotate_left_carry decimal_adjust decrement_jump
    exchange_digit operand
execute_cpu-rom _ c = ground arith

execute_cpu-port_latch : (i : Instr) (c : Cpu) → (execute_cpu i c).port_latch ≡ c.port_latch
unfolding execute_cpu fetch write_ram write_reg write_indirect push_state pop_state jump_page
    apply_alu_flags_add add_to_a rotate_right_carry rotate_left_carry decimal_adjust decrement_jump
    exchange_digit operand
execute_cpu-port_latch _ c = ground arith

-- The memory's size, and its bytes.
abbrev pub Memory : List ℕ → Type 0
Memory ram = (length ram ≡ 224) × All IsByte ram

pub write_ram-Memory :
    (addr v : ℕ) (c : Cpu) → Memory c.ram → v < 256 → Memory (write_ram addr v c).ram
unfolding write_ram
write_ram-Memory addr v c (size, bytes) h =
    let i = addr % length c.ram in (length-set c.ram i v ∙ size, All-set IsByte c.ram i v bytes h)

module _ (c : Cpu) (w : WellFormed c) where
  write_indirect-Memory :
      (r v : ℕ) (d : Cpu) → Memory d.ram → v < 256 → Memory (write_indirect r v d).ram
  unfolding write_indirect
  write_indirect-Memory r v d m h = write_ram-Memory (read_reg (r % 2) d) v d m h

  write_reg-Memory : (r v : ℕ) (d : Cpu) → Memory d.ram → v < 256 → Memory (write_reg r v d).ram
  unfolding write_reg
  write_reg-Memory r v d m h = write_ram-Memory (reg_addr r d) v d m h

  pub push_state-Memory : (d : Cpu) → Memory d.ram → Memory (push_state d).ram
  unfolding push_state
  push_state-Memory d m =
      let sp = frame_addr d.psw in
      let state = u16 (bit_or (d.psw / 16 * 4096) (d.pc % 4096)) in
      let low = write_ram-Memory (u8 (sp + 0)) (state % 256) d m (omega arith) in
      write_ram-Memory (u8 (sp + 1)) (u8 (state / 256)) (write_ram (u8 (sp + 0)) (state % 256) d)
        low (omega arith)

  operand-ram : (arg : Arg) → (operand arg c).0.ram ≡ c.ram
  unfolding operand fetch
  operand-ram imm = refl
  operand-ram (reg r) = refl
  operand-ram (ind r) = refl

  decrement_jump-ram :
      (r addr : ℕ) (d : Cpu)
      → (decrement_jump r addr d).ram ≡ (write_reg r (u8 (read_reg r d + 0xffffffff)) d).ram
  unfolding decrement_jump
  decrement_jump-ram r addr d = ground arith

  add_to_a-ram : (v c_in : ℕ) (d : Cpu) → (add_to_a v c_in d).ram ≡ d.ram
  unfolding add_to_a apply_alu_flags_add
  add_to_a-ram v c_in d = refl

  decimal_adjust-ram : (decimal_adjust c).ram ≡ c.ram
  unfolding decimal_adjust
  decimal_adjust-ram = ground arith

  exchange_digit-Memory : (r : ℕ) → Memory c.ram → Memory (exchange_digit r c).ram
  unfolding exchange_digit
  exchange_digit-Memory r m =
      let v = u8 (bit_or (read_indirect r c / 16 * 16) (c.a % 16)) in
      write_indirect-Memory r v c m (omega arith)

  execute_cpu-Memory : (i : Instr) → Memory c.ram → Memory (execute_cpu i c).ram
  unfolding execute_cpu fetch jump_page rotate_right_carry rotate_left_carry pop_state
  execute_cpu-Memory (mov_r_imm r) m =
      write_reg-Memory r (fetch c).1 (fetch c).0 m (fetch-IsByte c w)
  execute_cpu-Memory (mov_r_a r) m = write_reg-Memory r c.a c m w.a_byte
  execute_cpu-Memory (mov_ind_a r) m = write_indirect-Memory r c.a c m w.a_byte
  execute_cpu-Memory (mov_ind_imm r) m =
      write_indirect-Memory r (fetch c).1 (fetch c).0 m (fetch-IsByte c w)
  execute_cpu-Memory (dec_ind r) m =
      write_indirect-Memory r (u8 (read_indirect r c + 0xffffffff)) c m (omega arith)
  execute_cpu-Memory (inc_ind r) m =
      write_indirect-Memory r (u8 (read_indirect r c + 1)) c m (omega arith)
  execute_cpu-Memory (inc_r r) m = write_reg-Memory r (u8 (read_reg r c + 1)) c m (omega arith)
  execute_cpu-Memory (dec_r r) m =
      write_reg-Memory r (u8 (read_reg r c + 0xffffffff)) c m (omega arith)
  execute_cpu-Memory (xch_r r) m = write_reg-Memory r c.a c m w.a_byte
  execute_cpu-Memory (xch_ind r) m = write_indirect-Memory r c.a c m w.a_byte
  execute_cpu-Memory (xchd r) m = exchange_digit-Memory r m
  execute_cpu-Memory (call op) m = push_state-Memory (fetch c).0 m
  execute_cpu-Memory (djnz r) m =
      let (d, addr) = fetch c in
      subst Memory (sym (decrement_jump-ram r addr d))
        (write_reg-Memory r (u8 (read_reg r d + 0xffffffff)) d m (omega arith))
  execute_cpu-Memory (add arg) m =
      let r = operand arg c in subst Memory (sym (add_to_a-ram r.1 0 r.0 ∙ operand-ram arg)) m
  execute_cpu-Memory (addc arg) m =
      let r = operand arg c in
      subst Memory
        (sym (add_to_a-ram r.1 (if tests r.0.psw 0x80 then 1 else 0) r.0 ∙ operand-ram arg)) m
  execute_cpu-Memory (orl arg) m = subst Memory (sym (operand-ram arg)) m
  execute_cpu-Memory (anl arg) m = subst Memory (sym (operand-ram arg)) m
  execute_cpu-Memory (xrl arg) m = subst Memory (sym (operand-ram arg)) m
  execute_cpu-Memory da_a m = subst Memory (sym decimal_adjust-ram) m
  execute_cpu-Memory _ m = m

  -- An instruction without a callback keeps the widths.
  pub execute_cpu-WellFormed : (i : Instr) → WellFormed (execute_cpu i c)
  execute_cpu-WellFormed i =
      let (size, bytes) = execute_cpu-Memory i (w.ram_size, w.ram_bytes) in
      record {
        ram_size = size;
        ram_bytes = bytes;
        port_count = ap length (execute_cpu-port_latch i c) ∙ w.port_count;
        port_bytes = subst (All IsByte) (sym (execute_cpu-port_latch i c)) w.port_bytes;
        rom_bytes = subst (All IsByte) (sym (execute_cpu-rom i c)) w.rom_bytes;
        a_byte = execute_cpu-a c w i;
        psw_byte = execute_cpu-psw c w i;
        t_byte = execute_cpu-t c w i;
        f1_bit = execute_cpu-flags_f1 c w i;
        prescaler_bound = execute_cpu-prescaler c w i;
        pc_bound = execute_cpu-pc c w i;
      }
