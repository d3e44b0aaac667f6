-- ===== src/Examples/Core.antt =====
-- The microcontroller.
use coin_line_emu.Base.{
  ℕ, ◌+◌, ◌/◌, ◌%◌, ◌≤◌, ◌≡◌, refl, true, none, some, List, [], ◌∷◌, arith, All, ltb, ◌==◌,
  if◌then◌else◌, u64, tests, take,
}
use coin_line_emu.Am8048.{Callbacks, Cpu, new, push_state, pop_state}
use coin_line_emu.Am8048.Execute.{add_to_a, decimal_adjust}
use coin_line_emu.Am8048.Run.{step_cycles}
use coin_line_emu.Am8048.Cycles.{step_cycles_ends}
use coin_line_emu.Am8048.Invariant.{IsByte, WellFormed}
use coin_line_emu.Am8048.Invariant.Cycle.{push_state-WellFormed}
use coin_line_emu.Am8048.Invariant.History.{
  Op, loaded, restarted, external, timer, stepped, run_cpu, new-WellFormed, run_cpu-WellFormed,
}
use coin_line_emu.Am8048.Stack.{Represents, frame_of, push_state-Represents}
use coin_line_emu.Am8048.Returns.{pop_state-Represents}
use coin_line_emu.Am8048.Flags.{add_to_a_lem}
use coin_line_emu.Am8048.Timer.{Counting}
use coin_line_emu.Am8048.Decimal.{IsDecimal, decimal_value, decimal_adjust-add_to_a}

-- Callbacks that record what is written to the ports.
abbrev recording : Callbacks (List ℕ)
recording = record {
  read_port = some (λ e p. 0x5a);
  write_port = some (λ p v e. v ∷ e);
  read_ext_data = none;
  write_ext_data = none;
  read_test_input = some (λ e i. i == 1);
  tone_registers_changed = none;
  trace = none;
}

-- MOV A,#0x42; OUTL P1,A; CALL 0; and what follows is NOP.
abbrev program : List ℕ
program = 0x23 ∷ 0x42 ∷ 0x39 ∷ 0x14 ∷ 0x00 ∷ []

-- A program with a call, with the external interrupt on in its second part.
abbrev session : List Op
session = loaded program ∷ restarted ∷ stepped 12 ∷ external true ∷ timer true ∷ stepped 9 ∷ []

run_cpu-WellFormed_example :
    (r : Cpu × List ℕ) × (run_cpu recording session new [] ≡ some r) × WellFormed r.0
run_cpu-WellFormed_example =
    let bytes : All IsByte program =
      (omega arith, (omega arith, (omega arith, (omega arith, (omega arith, tt))))) in
    run_cpu-WellFormed recording session [] (bytes, (tt, (tt, (tt, (tt, (tt, tt))))))

step_cycles_ends_example :
    (r : Cpu × List ℕ) × (s : ℕ) × (step_cycles recording 7 new [] ≡ some r)
    × (7 ≤ s)
    × (s ≤ (if 7 == 0 then 0 else 7 + 3))
    × (u64 r.0.cycles_executed ≡ u64 (new.cycles_executed + s))
step_cycles_ends_example = step_cycles_ends recording 7 new []

push_state-Represents_example : Represents (push_state new) (take 8 (frame_of new ∷ []))
push_state-Represents_example = push_state-Represents new [] new-WellFormed (tt, tt)

-- A state inside one call.
abbrev called : Cpu
called = push_state new

pop_state-Represents_example :
    let d = pop_state true called in
    (d.pc ≡ new.pc)
    × (d.psw / 16 ≡ (if true then new.psw / 16 else called.psw / 16))
    × Represents d []
pop_state-Represents_example =
    pop_state-Represents called true (frame_of new) [] (push_state-WellFormed new new-WellFormed)
      push_state-Represents_example

-- The accumulator holds 47 in decimal digits, and 0x47 as a number.
abbrev summing : Cpu
summing = record new { a = 0x47; psw = 0x88 }

add_to_a_lem_example :
    let d = add_to_a 0xbf 1 summing in
    (d.a ≡ (summing.a + 0xbf + 1) % 256)
    × (tests d.psw 0x80 ≡ ltb 255 (summing.a + 0xbf + 1))
    × (tests d.psw 0x40 ≡ ltb 15 (summing.a % 16 + (0xbf + 1) % 16))
    × (d.psw % 64 ≡ summing.psw % 64)
add_to_a_lem_example =
    add_to_a_lem 0xbf 1 summing (omega arith) (omega arith) (omega arith) (omega arith)

decimal_adjust-add_to_a_example :
    let d = decimal_adjust (add_to_a 0x85 1 summing) in
    let total = decimal_value summing.a + decimal_value 0x85 + 1 in
    IsDecimal d.a × (decimal_value d.a ≡ total % 100) × (tests d.psw 0x80 ≡ ltb 99 total)
decimal_adjust-add_to_a_example =
    decimal_adjust-add_to_a 0x85 1 summing (omega arith) (omega arith, omega arith)
      (omega arith, omega arith) (omega arith)

-- A running timer at 255.
abbrev timing : Cpu
timing = record new { t = 255; prescaler = 20; tmr_on = true }

timing-Counting : Counting timing
timing-Counting = record {
  running = refl;
  timer_mode = refl;
  t_byte = omega arith;
  prescaler_bound = omega arith;
}
