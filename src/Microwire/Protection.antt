-- ===== src/Microwire/Protection.antt =====
-- Which commands the host can reach, and what protects the array from writes.
use coin_line_emu.Base.{
  ℕ, ◌+◌, ◌*◌, ◌/◌, ◌%◌, ◌^◌, ◌≤◌, ◌≡◌, refl, Bool, true, false, List, [], ◌∷◌, ◌∙◌, arith, All,
  All-append_iff, bit_or, bit_of, u16, u32, tests,
}
use coin_line_emu.Microwire.{
  Chip, Call, trace, ewen, ewds, erase_all, command_stream, power_on, set_chip_select, start_bit,
  execute_opcode, execute, command_bit, read_bit, write_bit, finish_write_word, begin_read_output,
  rising_edge, notify_port_b_clock,
}
use coin_line_emu.Microwire.Protocol.{Input, select, port_b, apply, run}
use coin_line_emu.Microwire.Invariant.{
  WellFormed, power_on-WellFormed, apply-WellFormed, run-WellFormed, command_shift,
}

-- The call is no trace of a write disable or of an erasure of the whole array.
abbrev pub IsOther : Call → Type 0
IsOther (trace ewds a w) = ⊥
IsOther (trace erase_all a w) = ⊥
IsOther _ = Unit

-- An operation that leaves writes enabled where they were, and reports no other command.
abbrev Keeps : Chip → Chip × List Call → Type 0
Keeps c r = (c.write_enabled ≡ true → r.0.write_enabled ≡ true) × All IsOther r.1

execute_opcode-Keeps : (op addr : ℕ) (c : Chip) → Keeps c (execute_opcode op addr c)
unfolding execute_opcode begin_read_output
execute_opcode-Keeps op addr c = ground arith

execute-Keeps : (body : ℕ) (c : Chip) → 0x400 ≤ body → Keeps c (execute body c)
unfolding execute
execute-Keeps body c h = ground (
  arith,
  execute_opcode-Keeps (body / 256 % 8 % 256) (body % 256 % 256)
      (record c { word_addr = body % 256 % 256 }),
)

command_bit-Keeps :
    (di : Bool) {c : Chip} → WellFormed c → c.phase ≡ command_stream → Keeps c (command_bit di c)
unfolding command_bit
command_bit-Keeps di {c} v p = ground (
  arith,
  command_shift c.sr_len c.sr_bits di,
  execute-Keeps (u16 (u32 (bit_or (c.sr_bits * 2) (bit_of di)) / 2 % 2 ^ 11)) (record c {
    sr_bits = u32 (bit_or (c.sr_bits * 2) (bit_of di));
    sr_len = u32 (c.sr_len + 1);
  }),
)

read_bit-Keeps : (c : Chip) → Keeps c (read_bit c)
unfolding read_bit
read_bit-Keeps c = ground arith

write_bit-Keeps : (di : Bool) (c : Chip) → Keeps c (write_bit di c)
unfolding write_bit finish_write_word
write_bit-Keeps di c = ground arith

rising_edge-Keeps : (di : Bool) {c : Chip} → WellFormed c → Keeps c (rising_edge c.phase di c)
unfolding rising_edge start_bit
rising_edge-Keeps di {c} v =
    ground (arith, command_bit-Keeps di v, read_bit-Keeps c, write_bit-Keeps di c)

apply-Keeps : (i : Input) {c : Chip} → WellFormed c → Keeps c (apply i c)
unfolding apply set_chip_select notify_port_b_clock
apply-Keeps (select b) {c} v = ground arith
apply-Keeps (port_b prev_b new_b di) {c} v =
    let v' : WellFormed (record c { prev_sk = tests new_b 0x80 }) = ground arith in
    ground (arith, rising_edge-Keeps di v')

run-Keeps : (is : List Input) {c : Chip} → WellFormed c → Keeps c (run is c)
unfolding run
run-Keeps [] v = (λ h. h, tt)
run-Keeps (i ∷ is) {c} v =
    let (on, other) = apply-Keeps i v in
    let (on', other') = run-Keeps is (apply-WellFormed i v) in
    (
      λ h. on' (on h),
      (All-append_iff IsOther (apply i c).1 (run is (apply i c).0).1).1 (other, other'),
    )

-- From power-on no sequence of line changes makes the device execute a write disable or an erase
-- of the whole array.
pub run-IsOther : (is : List Input) → All IsOther (run is power_on).1
run-IsOther is = (run-Keeps is power_on-WellFormed).1

-- Once a sequence of line changes from power-on has enabled writes, they stay enabled after every
-- further sequence.
pub run_stays_enabled :
    (is js : List Input)
    → (run is power_on).0.write_enabled ≡ true
    → (run js (run is power_on).0).0.write_enabled ≡ true
run_stays_enabled is js h = (run-Keeps js (run-WellFormed is)).0 h

-- Writes are off, and no write that was admitted earlier is under way.
pub record IsLocked (c : Chip) : Type 0 where
  pub disabled : c.write_enabled ≡ false
  pub uncommitted : c.write_commit ≡ false

-- The call is no trace of a write enable.
abbrev pub IsNoEnable : Call → Type 0
IsNoEnable (trace ewen a w) = ⊥
IsNoEnable _ = Unit

-- The array is as before and stays locked, unless the calls report a write enable.
abbrev Locks : Chip → Chip × List Call → Type 0
Locks c r = All IsNoEnable r.1 → IsLocked r.0 × (r.0.mem ≡ c.mem)

execute_opcode-Locks : (op addr : ℕ) (c : Chip) → IsLocked c → Locks c (execute_opcode op addr c)
unfolding execute_opcode begin_read_output
execute_opcode-Locks op addr c l = ground arith

execute-Locks : (body : ℕ) (c : Chip) → IsLocked c → Locks c (execute body c)
unfolding execute
execute-Locks body c l = ground (
  arith,
  execute_opcode-Locks (body / 256 % 8 % 256) (body % 256 % 256)
      (record c { word_addr = body % 256 % 256 }),
)

command_bit-Locks : (di : Bool) (c : Chip) → IsLocked c → Locks c (command_bit di c)
unfolding command_bit
command_bit-Locks di c l = ground (
  arith,
  execute-Locks (u16 (u32 (bit_or (c.sr_bits * 2) (bit_of di)) / 2 % 2 ^ 11)) (record c {
    sr_bits = u32 (bit_or (c.sr_bits * 2) (bit_of di));
    sr_len = u32 (c.sr_len + 1);
  }),
)

rising_edge-Locks : (di : Bool) (c : Chip) → IsLocked c → Locks c (rising_edge c.phase di c)
unfolding rising_edge start_bit read_bit write_bit
rising_edge-Locks di c l = ground (arith, command_bit-Locks di c)

apply-Locks : (i : Input) (c : Chip) → IsLocked c → Locks c (apply i c)
unfolding apply set_chip_select notify_port_b_clock
apply-Locks (select b) c l = ground arith
apply-Locks (port_b prev_b new_b di) c l =
    ground (arith, rising_edge-Locks di (record c { prev_sk = tests new_b 0x80 }))

-- While writes are disabled and no admitted write is under way, no sequence of line changes that
-- executes no write enable changes the array, and writes are disabled after it.
pub run-IsLocked :
    (is : List Input) (c : Chip)
    → IsLocked c
    → All IsNoEnable (run is c).1
    → IsLocked (run is c).0 × ((run is c).0.mem ≡ c.mem)
unfolding run
run-IsLocked [] c l h = (l, refl)
run-IsLocked (i ∷ is) c l h =
    let (now, later) = (All-append_iff IsNoEnable (apply i c).1 (run is (apply i c).0).1).0 h in
    let (l', same) = apply-Locks i c l now in
    let (l'', same') = run-IsLocked is (apply i c).0 l' later in (l'', same' ∙ same)
