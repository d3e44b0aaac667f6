-- ===== src/Microwire/Session/Write.antt =====
-- Commands and word writes, bit by bit.
use mathlib.Core.List.{append-nil}
use coin_line_emu.Base.{
  ℕ, ◌+◌, ◌*◌, ◌/◌, ◌^◌, ◌≤◌, ◌<◌, ◌≡◌, Bool, true, false, List, [], ◌∷◌, ◌++◌, arith, bit_of,
  is_odd, if◌then◌else◌, Bool-cases, inl, inr,
}
use coin_line_emu.Base.Bits.{bit_or_shift_in}
use coin_line_emu.Microwire.{
  Chip, Call, trace, mirror, write, write_rejected, wait_start, command_stream, write_word_in,
  start_bit, command_bit, execute, execute_opcode, finish_write_word, write_bit, rising_edge,
  write_word_le,
}
use coin_line_emu.Microwire.Command.{is_eprm_ewen}
use coin_line_emu.Microwire.Recognise.{is_eprm_ewen_iff}
use coin_line_emu.Microwire.Protocol.{run, pulses, bits}
use coin_line_emu.Microwire.Session.Ticks.{
  tick, ticks, ticks-append, run-pulses, shift_in-bits, length-bits, ticks_command, ticks_write,
}

-- Selected, between two commands, with the clock low.
pub record IsReady (c : Chip) : Type 0 where
  pub selected : c.cs ≡ true
  pub waiting : c.phase ≡ wait_start
  pub clock_low : c.prev_sk ≡ false

-- The start bit, ten bits of command and one more bit that the device ignores.
abbrev pub command : ℕ → Bool → List Bool
command v x = true ∷ bits 10 v ++ x ∷ []

-- The chip at the rising edge that completes a command.
abbrev pub loaded : ℕ → Bool → Chip → Chip
loaded v x c = record c {
  prev_sk = true;
  phase = command_stream;
  sr_bits = (0x400 + v) * 2 + bit_of x;
  sr_len = 12;
}

abbrev pub lower : Chip × List Call → Chip × List Call
lower (c, calls) = (record c { prev_sk = false }, calls)

start_tick :
    (c : Chip)
    → IsReady c
    → tick true c
      ≡ (record c { phase = command_stream; sr_bits = 1; sr_len = 1; prev_sk = false }, [])
unfolding tick rising_edge start_bit
start_tick c r = ground arith

last_tick :
    (v : ℕ) (x : Bool) (c : Chip)
    → v < 1024
    → c.phase ≡ command_stream
    → c.sr_bits ≡ 1024 + v
    → c.sr_len ≡ 11
    → tick x c ≡ lower (execute (0x400 + v) (loaded v x c))
unfolding tick rising_edge command_bit
last_tick v true c small p sr len = ground (arith, bit_or_shift_in (1024 + v) 1)
last_tick v false c small p sr len = ground (arith, bit_or_shift_in (1024 + v) 0)

-- After the twelve bits the device executes the command that they spell.
pub ticks-command :
    (v : ℕ) (x : Bool) (c : Chip)
    → v < 1024
    → IsReady c
    → ticks (command v x) c ≡ lower (execute (0x400 + v) (loaded v x c))
unfolding ticks
ticks-command v x c small r =
    let c1 = record c { phase = command_stream; sr_bits = 1; sr_len = 1; prev_sk = false } in
    let c2 = record c1 { sr_bits = 0x400 + v; sr_len = 11 } in
    let filled : ticks (bits 10 v) c1 ≡ (c2, []) =
      ground
        (arith, ticks_command (bits 10 v) c1, length-bits 10 v, shift_in-bits (2 ^ 32) 1 10 v) in
    let executed : ticks (x ∷ []) c2 ≡ lower (execute (0x400 + v) (loaded v x c)) =
      ground (arith, last_tick v x c2, append-nil (execute (0x400 + v) (loaded v x c)).1) in
    ground (arith, start_tick c, ticks-append (bits 10 v) (x ∷ []) c1)

pub not_ewen : (body : ℕ) → 0x500 ≤ body → is_eprm_ewen body ≡ false
not_ewen body h = elim (Bool-cases (is_eprm_ewen body)) [
  | inl e ↦ absurd (omega (arith, (is_eprm_ewen_iff body).0 e))
  | inr e ↦ e
]

execute_write :
    (a : ℕ) (c : Chip)
    → a < 256
    → execute (0x500 + a) c ≡ (
      record c {
        word_addr = a;
        phase = write_word_in;
        write_shift = 0;
        write_accum = 0;
        write_commit = c.write_enabled;
      },
      [],
    )
unfolding execute execute_opcode
execute_write a c small = ground (arith, not_ewen (0x500 + a))

-- The chip behind the sixteenth data bit, and what it reports.
abbrev written : ℕ → ℕ → Chip → Chip
written a d c = record c {
  mem = if c.write_commit then write_word_le c.mem a d else c.mem;
  phase = wait_start;
  write_shift = 0;
  write_accum = 0;
  write_commit = false;
  prev_sk = false;
}

abbrev pub write_calls : Bool → ℕ → ℕ → List Call
write_calls true a d = trace write a d ∷ mirror (a * 2) d ∷ []
write_calls false a d = trace write_rejected a d ∷ []

last_write_tick :
    (a d : ℕ) (c : Chip)
    → d < 2 ^ 16
    → c.phase ≡ write_word_in
    → c.write_shift ≡ 15
    → c.write_accum ≡ d / 2
    → c.word_addr ≡ a
    → tick (is_odd d) c ≡ (written a d c, write_calls c.write_commit a d)
unfolding tick rising_edge write_bit finish_write_word
last_write_tick a d c small p n acc at = ground (arith, bit_or_shift_in (d / 2) (bit_of (is_odd d)))

data_ticks :
    (a d : ℕ) (c : Chip)
    → d < 2 ^ 16
    → c.phase ≡ write_word_in
    → c.prev_sk ≡ false
    → c.write_shift ≡ 0
    → c.write_accum ≡ 0
    → c.word_addr ≡ a
    → ticks (bits 16 d) c ≡ (written a d c, write_calls c.write_commit a d)
unfolding ticks
data_ticks a d c small p sk n acc at =
    let c1 = record c { write_accum = d / 2; write_shift = 15 } in
    let filled : ticks (bits 15 (d / 2)) c ≡ (c1, []) = ground (
      arith,
      ticks_write (bits 15 (d / 2)) c,
      length-bits 15 (d / 2),
      shift_in-bits (2 ^ 16) 0 15 (d / 2),
    ) in
    ground (
      arith,
      ticks-append (bits 15 (d / 2)) (is_odd d ∷ []) c,
      last_write_tick a d c1,
      append-nil (write_calls c.write_commit a d),
    )

-- A word write clocked into a chip that waits for a command stores the word if writes are
-- enabled and changes no memory if they are not; it reports which of the two, and the chip waits
-- for the next command with writes enabled or not as before.
pub word_write :
    (a d : ℕ) (x : Bool) (c : Chip)
    → a < 256
    → d < 2 ^ 16
    → IsReady c
    → let r = run (pulses (command (0x100 + a) x ++ bits 16 d)) c in
      (r.0.mem ≡ (if c.write_enabled then write_word_le c.mem a d else c.mem))
      × (r.1 ≡ write_calls c.write_enabled a d)
      × (r.0.write_enabled ≡ c.write_enabled)
      × IsReady r.0
word_write a d x c small fits r =
    let c1 = (lower (execute (0x500 + a) (loaded (0x100 + a) x c))).0 in
    let started : ticks (command (0x100 + a) x) c
        ≡ lower (execute (0x500 + a) (loaded (0x100 + a) x c)) =
      ground (arith, ticks-command (0x100 + a) x c) in
    ground (
      arith,
      run-pulses (command (0x100 + a) x ++ bits 16 d) c,
      ticks-append (command (0x100 + a) x) (bits 16 d) c,
      execute_write a (loaded (0x100 + a) x c),
      data_ticks a d c1,
    )
