-- ===== src/Am8048/Invariant.antt =====
-- What has its width in the state of the microcontroller.
pub mod Registers
pub mod Memory
pub mod Cycle
pub mod Run
pub mod History
use coin_line_emu.Base.Bounds.{
  bit_or-bound, bit_and-bound, bit_xor_carry, bit_xor_all, bit_xor_flag, bit_xor_lowest,
}
use coin_line_emu.Base.{
  ℕ, zero, suc, ◌+◌, ◌-◌, ◌*◌, ◌/◌, ◌%◌, ◌^◌, ◌<◌, ◌≤◌, ◌≡◌, refl, sym, subst, ap, ◌∙◌, Bool, true,
  false, not, ◌&&◌, ◌||◌, Option, none, some, List, arith, bit_and, bit_or, bit_xor, ltb, ◌==◌,
  if◌then◌else◌, u8, u16, u64, tests, bit_of, length, length-set, length-replicate, get_or, set,
  replicate, All, All-set, All-get_or, All-replicate,
}
use coin_line_emu.Am8048.{
  Callbacks, Cpu, new, reset, rom_byte, fetch, read_ram, write_ram, read_reg, write_reg,
  read_indirect, write_indirect, push_state, pop_state, jump_page, put_flag, apply_alu_flags_add,
  aux_carry, reg_addr, frame_addr, assert_external_interrupt, assert_timer_interrupt, configure,
  load_program_rom, Config,
}

abbrev pub IsByte : ℕ → Type 0
IsByte n = n < 256

-- The memory and the registers have their sizes, and what they hold has its width.
pub record WellFormed (c : Cpu) : Type 0 where
  pub ram_size : length c.ram ≡ 224
  pub ram_bytes : All IsByte c.ram
  pub port_count : length c.port_latch ≡ 8
  pub port_bytes : All IsByte c.port_latch
  pub rom_bytes : All IsByte c.rom
  pub a_byte : c.a < 256
  pub psw_byte : c.psw < 256
  pub t_byte : c.t < 256
  pub f1_bit : c.flags_f1 < 2
  pub prescaler_bound : c.prescaler < 32
  pub pc_bound : c.pc < 4096

pub rom_byte-IsByte : (addr : ℕ) (c : Cpu) → All IsByte c.rom → rom_byte addr c < 256
unfolding rom_byte
rom_byte-IsByte addr c h =
    let inside : get_or c.rom addr 0 < 256 = All-get_or IsByte c.rom addr 0 h (omega arith) in
    ground (arith, inside)

read_ram-IsByte : (addr : ℕ) (c : Cpu) → All IsByte c.ram → read_ram addr c < 256
unfolding read_ram
read_ram-IsByte addr c h = All-get_or IsByte c.ram (addr % length c.ram) 0 h (omega arith)

pub put_flag-IsByte :
    (on : Bool) (mask psw : ℕ) → mask < 256 → psw < 256 → put_flag on mask psw < 256
put_flag-IsByte on mask psw hm h =
    ground (arith, bit_or-bound 8 psw mask h hm, bit_and-bound 8 psw (0xff - mask) h)

module _ (c : Cpu) (w : WellFormed c) where
  pub read_reg-IsByte : (r : ℕ) → read_reg r c < 256
  unfolding read_reg
  read_reg-IsByte r = read_ram-IsByte (reg_addr r c) c w.ram_bytes

  pub read_indirect-IsByte : (r : ℕ) → read_indirect r c < 256
  unfolding read_indirect
  read_indirect-IsByte r = read_ram-IsByte (read_reg (r % 2) c) c w.ram_bytes

  pub fetch-IsByte : (fetch c).1 < 256
  unfolding fetch
  fetch-IsByte = rom_byte-IsByte (c.pc % 4096) c w.rom_bytes
