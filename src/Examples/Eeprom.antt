-- ===== src/Examples/Eeprom.antt =====
-- The serial EEPROM: a chip that is selected, with and without writes enabled.
use coin_line_emu.Base.{◌+◌, ◌≡◌, refl, Bool, true, false, List, ◌∷◌, ◌++◌, arith, replicate, All}
use coin_line_emu.Microwire.{
  Chip, wait_start, power_on, set_chip_select, notify_port_b_clock, rising_edge, start_bit,
  command_bit, execute,
}
use coin_line_emu.Microwire.Command.{is_eprm_ewen}
use coin_line_emu.Microwire.Protocol.{Input, select, apply, run, pulses, bits, read_loop}
use coin_line_emu.Microwire.Protection.{IsOther, IsLocked, run-IsOther, run-IsLocked}
use coin_line_emu.Microwire.Session.Write.{IsReady, command, write_calls, word_write}
use coin_line_emu.Microwire.Session.Read.{write_then_read}

abbrev fresh : Bool → Chip
fresh enabled = record {
  mem = replicate 512 0xff;
  cs = true;
  data_out = true;
  prev_sk = false;
  write_enabled = enabled;
  phase = wait_start;
  sr_bits = 0;
  sr_len = 0;
  word_addr = 0;
  read_bit_idx = 0;
  write_shift = 0;
  write_accum = 0;
  write_commit = false;
}

fresh-IsReady : (enabled : Bool) → IsReady (fresh enabled)
fresh-IsReady enabled = ground arith

write_then_read_example :
    let c1 = (run (pulses (command (0x100 + 7) false ++ bits 16 0xbeef)) (fresh true)).0 in
    (read_loop 17 (run (pulses (command (0x200 + 7) false)) c1).0).0 ≡ true ∷ bits 16 0xbeef
write_then_read_example =
    write_then_read 7 7 0xbeef false false (fresh true) (omega arith) (omega arith) (omega arith)
      (fresh-IsReady true) refl refl

word_write_example :
    let r = run (pulses (command (0x100 + 7) true ++ bits 16 0xbeef)) (fresh false) in
    (r.0.mem ≡ (fresh false).mem)
    × (r.1 ≡ write_calls false 7 0xbeef)
    × (r.0.write_enabled ≡ false)
    × IsReady r.0
word_write_example =
    word_write 7 0xbeef true (fresh false) (omega arith) (omega arith) (fresh-IsReady false)

fresh-IsLocked : IsLocked (fresh false)
fresh-IsLocked = ground arith

-- A write to a chip on which writes are disabled.
abbrev refused_write : List Input
refused_write = pulses (command (0x100 + 7) true ++ bits 16 0xbeef)

run-IsLocked_example :
    IsLocked (run refused_write (fresh false)).0
    × ((run refused_write (fresh false)).0.mem ≡ (fresh false).mem)
run-IsLocked_example =
    run-IsLocked refused_write (fresh false) fresh-IsLocked (rw word_write_example.1 (ground arith))

run-IsOther_example : All IsOther (run (select true ∷ refused_write) power_on).1
run-IsOther_example = run-IsOther (select true ∷ refused_write)

-- Selecting the chip and clocking in a write enable.
abbrev enabling : List Input
enabling = select true ∷ pulses (command 0xc0 false)

enables : (run enabling power_on).0.write_enabled ≡ true
unfolding run apply set_chip_select notify_port_b_clock rising_edge start_bit command_bit execute
    power_on is_eprm_ewen
enables = refl
