-- ===== src/Am8048.antt =====
-- The microcontroller core of src/mame/coinline/millennium_am8048_core.{h,cpp}, against the
-- callbacks of millennium_am8048_core_contract.h. This module has the state and the helpers.
pub mod Decode
pub mod Execute
pub mod Run
pub mod Cycles
pub mod Surrounding
pub mod Invariant
pub mod Stack
pub mod Returns
pub mod Flags
pub mod Timer
pub mod Decimal
use Prim.Native.String.{String}
use coin_line_emu.Base.{
  ℕ, zero, suc, ◌+◌, ◌-◌, ◌*◌, ◌/◌, ◌%◌, Bool, true, false, not, ◌&&◌, ◌||◌, Option, none, some,
  List, [], ◌∷◌, ◌++◌, bit_and, bit_or, bit_xor, length, get_or, set, take, replicate, ltb, leb,
  ◌==◌, if◌then◌else◌, u8, u16, tests, bit_of,
}

-- `am8048_config`
pub record Config : Type 0 where
  pub xtal_hz : ℕ
  pub enable_timer_interrupt : Bool
  pub enable_external_interrupt : Bool

-- `am8048_callbacks` over a surrounding object of type `E`; `none` is an empty callback.
pub record Callbacks (E : Type 0) : Type 0 where
  pub read_port : Option (E → ℕ → ℕ)
  pub write_port : Option (ℕ → ℕ → E → E)
  pub read_ext_data : Option (E → ℕ → ℕ)
  pub write_ext_data : Option (ℕ → ℕ → E → E)
  pub read_test_input : Option (E → ℕ → Bool)
  pub tone_registers_changed : Option (ℕ → ℕ → E → E)
  pub trace : Option (String → ℕ → ℕ → E → E)

pub record Cpu : Type 0 where
  pub cfg : Config
  pub rom : List ℕ
  pub ram : List ℕ
  pub port_latch : List ℕ
  pub a : ℕ
  pub psw : ℕ
  pub t : ℕ
  pub flags_f1 : ℕ
  pub flag_mb : Bool
  pub in_irq : Bool
  pub i_ena : Bool
  pub t_ena : Bool
  pub t_req : Bool
  pub t_flag : Bool
  pub tmr_on : Bool
  pub tmr_mode_counter : Bool
  pub t0_clk_ena : Bool
  pub stop_on_stop_tcnt : Bool
  pub idle_mode : Bool
  pub stop_mode : Bool
  pub prescaler : ℕ
  pub t1_prev : ℕ
  pub cycles_executed : ℕ
  pub pc : ℕ
  pub ext_irq : Bool
  pub timer_irq : Bool

-- The member initialisers.
abbrev pub new : Cpu
new = record {
  cfg = record {
    xtal_hz = 3579545;
    enable_timer_interrupt = true;
    enable_external_interrupt = true;
  };
  rom = [];
  ram = replicate 224 0;
  port_latch = replicate 8 0xff;
  a = 0;
  psw = 0x08;
  t = 0;
  flags_f1 = 0;
  flag_mb = false;
  in_irq = false;
  i_ena = false;
  t_ena = false;
  t_req = false;
  t_flag = false;
  tmr_on = false;
  tmr_mode_counter = false;
  t0_clk_ena = false;
  stop_on_stop_tcnt = false;
  idle_mode = false;
  stop_mode = false;
  prescaler = 0;
  t1_prev = 0;
  cycles_executed = 0;
  pc = 0;
  ext_irq = false;
  timer_irq = false;
}

-- `stop` is whether the environment variable asks for the stop mode.
unfoldable pub configure : Config → Bool → Cpu → Cpu
configure cfg stop c = record c { cfg = cfg; stop_on_stop_tcnt = stop }

-- A null pointer is the empty list.
unfoldable pub load_program_rom : List ℕ → Cpu → Cpu
load_program_rom image c = record c {
  rom = take 4096 image ++ replicate (4096 - length image) 0x00;
}

-- `t1` is the level of test input 1. The program, the configuration and the stop option are kept.
unfoldable pub reset : Bool → Cpu → Cpu
reset t1 c = record new {
  cfg = c.cfg;
  rom = c.rom;
  stop_on_stop_tcnt = c.stop_on_stop_tcnt;
  t1_prev = bit_of t1;
}

unfoldable pub assert_external_interrupt : Bool → Cpu → Cpu
assert_external_interrupt level c = record c { ext_irq = level }

unfoldable pub assert_timer_interrupt : Bool → Cpu → Cpu
assert_timer_interrupt level c = record c { timer_irq = level }

unfoldable pub debug_port_latch : ℕ → Cpu → ℕ
debug_port_latch port c =
    if ltb port (length c.port_latch) then get_or c.port_latch port 0 else 0xff

-- `m_rom[addr]`, or 0 outside.
unfoldable pub rom_byte : ℕ → Cpu → ℕ
rom_byte addr c = if ltb addr (length c.rom) then get_or c.rom addr 0 else 0x00

unfoldable pub fetch : Cpu → Cpu × ℕ
fetch c = (record c { pc = (c.pc + 1) % 4096 }, rom_byte (c.pc % 4096) c)

unfoldable pub read_ram : ℕ → Cpu → ℕ
read_ram addr c = get_or c.ram (addr % length c.ram) 0

unfoldable pub write_ram : ℕ → ℕ → Cpu → Cpu
write_ram addr v c = record c { ram = set c.ram (addr % length c.ram) v }

-- The address of a register in the bank that the status word selects.
abbrev pub reg_addr : ℕ → Cpu → ℕ
reg_addr r c = u8 ((if tests c.psw 0x10 then 24 else 0) + r % 8)

unfoldable pub read_reg : ℕ → Cpu → ℕ
read_reg r c = read_ram (reg_addr r c) c

unfoldable pub write_reg : ℕ → ℕ → Cpu → Cpu
write_reg r v c = write_ram (reg_addr r c) v c

unfoldable pub read_indirect : ℕ → Cpu → ℕ
read_indirect r c = read_ram (read_reg (r % 2) c) c

unfoldable pub write_indirect : ℕ → ℕ → Cpu → Cpu
write_indirect r v c = write_ram (read_reg (r % 2) c) v c

-- The address of the stack's frame at the status word's pointer.
abbrev pub frame_addr : ℕ → ℕ
frame_addr psw = u8 (psw % 8 * 2 + 8)

unfoldable pub push_state : Cpu → Cpu
push_state c =
    let sp = frame_addr c.psw in
    let state = u16 (bit_or (c.psw / 16 * 4096) (c.pc % 4096)) in
    let c1 = write_ram (u8 (sp + 0)) (state % 256) c in
    let c2 = write_ram (u8 (sp + 1)) (u8 (state / 256)) c1 in
    record c2 { psw = u8 (bit_or (c.psw / 8 * 8) ((c.psw + 1) % 8)) }

-- `m_psw - 1U` wraps at 2 ^ 32.
unfoldable pub pop_state : Bool → Cpu → Cpu
pop_state retr c0 =
    let c = record c0 { psw = u8 (bit_or (c0.psw / 8 * 8) ((c0.psw + 0xffffffff) % 8)) } in
    let sp = frame_addr c.psw in
    let state = u16 (bit_or (read_ram (u8 (sp + 1)) c * 256) (read_ram (u8 (sp + 0)) c)) in
    let c1 = record c { pc = state % 4096 } in
    if retr then record c1 { psw = u8 (bit_or (c.psw % 16) (state / 4096 % 16 * 16)) } else c1

unfoldable pub jump_page : ℕ → ℕ → Cpu → Cpu
jump_page opcode low c =
    let hi = opcode / 32 % 8 * 256 in
    let bank = if c.flag_mb && not c.in_irq then 0x0800 else 0x0000 in
    record c { pc = u16 (bit_or (bit_or hi low) bank) }

-- `if (on) m_psw |= mask; else m_psw &= ~mask;`
abbrev pub put_flag : Bool → ℕ → ℕ → ℕ
put_flag on mask psw = if on then bit_or psw mask else bit_and psw (0xff - mask)

-- Bit 3 of `(a & b) | (a & ~res) | (b & ~res)`: the carry out of the low nibble.
unfoldable pub aux_carry : ℕ → ℕ → ℕ → Bool
aux_carry a b res =
    let keep = 0xffffffff - res in
    tests (bit_or (bit_or (bit_and a b) (bit_and a keep)) (bit_and b keep)) 0x08

unfoldable pub apply_alu_flags_add : ℕ → ℕ → ℕ → Cpu → Cpu
apply_alu_flags_add a b res c = record c {
  psw = put_flag (aux_carry a b res) 0x40 (put_flag (tests res 0x100) 0x80 c.psw);
}
