-- ===== src/Am8048/Decode.antt =====
-- The labels and masks of `execute_one`: which instruction an opcode is.
use coin_line_emu.Base.{
  ℕ, ◌+◌, ◌-◌, ◌/◌, ◌%◌, Bool, true, false, ◌||◌, bit_and, ◌==◌, if◌then◌else◌,
}

-- Where an operand comes from: the next byte, a register, or the byte that one points to.
pub data Arg : Type 0 where
  imm : Arg
  reg ind : ℕ → Arg

-- The conditions of the jumps within a page.
pub data Cond : Type 0 where
  nonzero zero_acc timer_flag flag0 flag1 interrupt_low : Cond
  carry : Bool → Cond
  acc_bit : ℕ → Cond
  test_input : ℕ → Bool → Cond

-- The instructions. Those with a port's number act on the port.
pub data Instr : Type 0 where
  nop idl ret retr dec_a inc_a clr_a cpl_a : Instr
  mov_a_t mov_t_a mov_a_psw mov_psw_a clr_c cpl_c clr_f0 cpl_f0 clr_f1 cpl_f1 : Instr
  swap_a rr_a rl_a rrc_a rlc_a strt_t strt_cnt stop_tcnt ent0_clk ins_bus : Instr
  en_i en_tcnti sel_mb sel_rb : Bool → Instr
  in_port movd_a_p outl movd_p_a orl_port anl_port orld_p anld_p : ℕ → Instr
  mov_r_imm mov_r_a mov_a_r movx_a_r movx_r_a mov_ind_a mov_a_ind mov_ind_imm : ℕ → Instr
  dec_ind inc_ind inc_r dec_r djnz xch_r xch_ind xchd : ℕ → Instr
  mov_a_imm movp jmpp movp3 da_a : Instr
  add addc orl anl xrl : Arg → Instr
  jmp call unsupported : ℕ → Instr
  jump_if : Cond → Instr

-- The instructions of the last `else`s of the default branch.
unfoldable pub decode_rest : ℕ → Instr
decode_rest op =
    if op == 0x8c || op == 0x8d || op == 0x8e || op == 0x8f
    then orld_p (4 + (op - 0x8c))
    else if op == 0x9c || op == 0x9d || op == 0x9e || op == 0x9f
    then anld_p (4 + (op - 0x9c))
    else if op == 0xf6 || op == 0xe6
    then jump_if (carry (op == 0xf6))
    else if op == 0xb6
    then jump_if flag0
    else if op == 0x76
    then jump_if flag1
    else if op == 0x86
    then jump_if interrupt_low
    else if op == 0x26 || op == 0x36
    then jump_if (test_input 0 (op == 0x36))
    else if op == 0x46 || op == 0x56
    then jump_if (test_input 1 (op == 0x56))
    else if bit_and op 0xf8 == 0xe8
    then djnz (op % 8)
    else if bit_and op 0xf8 == 0x28
    then xch_r (op % 8)
    else if bit_and op 0xfe == 0x20
    then xch_ind (op % 2)
    else if bit_and op 0xfe == 0x30
    then xchd (op % 2)
    else if op == 0x57
    then da_a
    else unsupported op

-- The jumps and calls, and the reads of the program.
unfoldable pub decode_jump : ℕ → Instr
decode_jump op =
    if bit_and op 0x1f == 0x04
    then jmp op
    else if bit_and op 0x1f == 0x14
    then call op
    else if op == 0x96
    then jump_if nonzero
    else if op == 0xc6
    then jump_if zero_acc
    else if bit_and op 0x1f == 0x12
    then jump_if (acc_bit (op / 32 % 8))
    else if op == 0x16
    then jump_if timer_flag
    else if op == 0xa3
    then movp
    else if op == 0xb3
    then jmpp
    else if op == 0xe3
    then movp3
    else decode_rest op

-- The arithmetic and logic instructions.
unfoldable pub decode_alu : ℕ → Instr
decode_alu op =
    if op == 0x23
    then mov_a_imm
    else if op == 0x03
    then add imm
    else if op == 0x13
    then addc imm
    else if op == 0x43
    then orl imm
    else if op == 0x88 || op == 0x89 || op == 0x8a
    then orl_port (op - 0x88)
    else if op == 0x53
    then anl imm
    else if op == 0x98 || op == 0x99 || op == 0x9a
    then anl_port (op - 0x98)
    else if bit_and op 0xf8 == 0x58
    then anl (reg (op % 8))
    else if bit_and op 0xfe == 0x50
    then anl (ind (op % 2))
    else if op == 0xd3
    then xrl imm
    else if bit_and op 0xf8 == 0xd8
    then xrl (reg (op % 8))
    else if bit_and op 0xfe == 0xd0
    then xrl (ind (op % 2))
    else if bit_and op 0xf8 == 0x48
    then orl (reg (op % 8))
    else if bit_and op 0xfe == 0x40
    then orl (ind (op % 2))
    else if bit_and op 0xf8 == 0x68
    then add (reg (op % 8))
    else if bit_and op 0xfe == 0x60
    then add (ind (op % 2))
    else if bit_and op 0xf8 == 0x78
    then addc (reg (op % 8))
    else if bit_and op 0xfe == 0x70
    then addc (ind (op % 2))
    else decode_jump op

-- The default branch of the `switch`.
unfoldable pub decode_default : ℕ → Instr
decode_default op =
    if bit_and op 0xf8 == 0xb8
    then mov_r_imm (op % 8)
    else if bit_and op 0xf8 == 0xa8
    then mov_r_a (op % 8)
    else if bit_and op 0xf8 == 0xf8
    then mov_a_r (op % 8)
    else if bit_and op 0xfe == 0x80
    then movx_a_r (op % 2)
    else if bit_and op 0xfe == 0x90
    then movx_r_a (op % 2)
    else if bit_and op 0xfe == 0xa0
    then mov_ind_a (op % 2)
    else if bit_and op 0xfe == 0xf0
    then mov_a_ind (op % 2)
    else if bit_and op 0xfe == 0xb0
    then mov_ind_imm (op % 2)
    else if bit_and op 0xfe == 0xc0
    then dec_ind (op % 2)
    else if bit_and op 0xfe == 0x10
    then inc_ind (op % 2)
    else if bit_and op 0xf8 == 0x18
    then inc_r (op % 8)
    else if bit_and op 0xf8 == 0xc8
    then dec_r (op % 8)
    else decode_alu op

-- The `case` labels from the rotations on.
unfoldable pub decode_ports : ℕ → Instr
decode_ports op =
    if op == 0x47
    then swap_a
    else if op == 0x77
    then rr_a
    else if op == 0xe7
    then rl_a
    else if op == 0x67
    then rrc_a
    else if op == 0xf7
    then rlc_a
    else if op == 0xe5
    then sel_mb false
    else if op == 0xf5
    then sel_mb true
    else if op == 0xc5
    then sel_rb false
    else if op == 0xd5
    then sel_rb true
    else if op == 0x55
    then strt_t
    else if op == 0x45
    then strt_cnt
    else if op == 0x65
    then stop_tcnt
    else if op == 0x75
    then ent0_clk
    else if op == 0x08
    then ins_bus
    else if op == 0x09 || op == 0x0a
    then in_port (op - 0x08)
    else if op == 0x0c || op == 0x0d || op == 0x0e || op == 0x0f
    then movd_a_p (4 + (op - 0x0c))
    else if op == 0x02 || op == 0x39 || op == 0x3a
    then outl (if op == 0x02 then 0 else op - 0x38)
    else if op == 0x3c || op == 0x3d || op == 0x3e || op == 0x3f
    then movd_p_a (4 + (op - 0x3c))
    else decode_default op

unfoldable pub decode : ℕ → Instr
decode op =
    if op == 0x00
    then nop
    else if op == 0x01
    then idl
    else if op == 0x05
    then en_i true
    else if op == 0x15
    then en_i false
    else if op == 0x25
    then en_tcnti true
    else if op == 0x35
    then en_tcnti false
    else if op == 0x83
    then ret
    else if op == 0x93
    then retr
    else if op == 0x07
    then dec_a
    else if op == 0x17
    then inc_a
    else if op == 0x27
    then clr_a
    else if op == 0x37
    then cpl_a
    else if op == 0x42
    then mov_a_t
    else if op == 0x62
    then mov_t_a
    else if op == 0xc7
    then mov_a_psw
    else if op == 0xd7
    then mov_psw_a
    else if op == 0x97
    then clr_c
    else if op == 0xa7
    then cpl_c
    else if op == 0x85
    then clr_f0
    else if op == 0x95
    then cpl_f0
    else if op == 0xa5
    then clr_f1
    else if op == 0xb5
    then cpl_f1
    else decode_ports op

-- The instruction takes a second cycle.
abbrev pub is_imm : Arg → Bool
is_imm imm = true
is_imm _ = false

unfoldable pub takes_two : Instr → Bool
takes_two ret = true
takes_two retr = true
takes_two ins_bus = true
takes_two (in_port p) = true
takes_two (movd_a_p p) = true
takes_two (outl p) = true
takes_two (movd_p_a p) = true
takes_two (orl_port p) = true
takes_two (anl_port p) = true
takes_two (orld_p p) = true
takes_two (anld_p p) = true
takes_two (mov_r_imm r) = true
takes_two (movx_a_r r) = true
takes_two (movx_r_a r) = true
takes_two (mov_ind_imm r) = true
takes_two (djnz r) = true
takes_two mov_a_imm = true
takes_two movp = true
takes_two jmpp = true
takes_two movp3 = true
takes_two (add arg) = is_imm arg
takes_two (addc arg) = is_imm arg
takes_two (orl arg) = is_imm arg
takes_two (anl arg) = is_imm arg
takes_two (xrl arg) = is_imm arg
takes_two (jmp op) = true
takes_two (call op) = true
takes_two (jump_if c) = true
takes_two _ = false
