-- ===== src/Microwire/Invariant.antt =====
-- What holds of the chip between two calls, whatever the host clocks in.
use native.Mathlib.Nat.{pow-suc}
use coin_line_emu.Base.{
  ℕ, zero, suc, ◌+◌, ◌*◌, ◌/◌, ◌%◌, ◌^◌, ◌≤◌, ◌<◌, ◌≡◌, refl, ◌∙◌, Bool, true, false, List, arith,
  length, All, bit_or, bit_of, u16, u32, tests, [], ◌∷◌, length-set, All-set, All-replicate,
  length-replicate, leb, leb→le,
}
use coin_line_emu.Base.Bits.{all_below, all_below_sound, bit_or_shift_in}
use coin_line_emu.Microwire.Protocol.{Input, select, port_b, apply, run}
use coin_line_emu.Microwire.{
  Chip, idle, wait_start, command_stream, read_word_out, write_word_in, capacity_bytes, power_on,
  write_word_le, erase_words, perform_erase_all_words, set_chip_select, start_bit,
  begin_read_output, execute_opcode, execute, command_bit, finish_write_word, read_bit, write_bit,
  rising_edge, notify_port_b_clock,
}

abbrev IsByte : ℕ → Type 0
IsByte b = b < 256

-- The array keeps its size, and its cells hold bytes.
pub record IsMemory (mem : List ℕ) : Type 0 where
  pub size : length mem ≡ capacity_bytes
  pub bytes : All IsByte mem

-- The counters of the phase that the chip is in. In the command phase the start bit is the top
-- one of the bits that have come in.
pub record InStep (c : Chip) : Type 0 where
  pub deselected : c.cs ≡ false → c.phase ≡ idle
  pub some_bits : c.phase ≡ command_stream → 1 ≤ c.sr_len
  pub few_bits : c.phase ≡ command_stream → c.sr_len ≤ 11
  pub start_on_top : c.phase ≡ command_stream → 2 ^ c.sr_len ≤ c.sr_bits * 2
  pub no_more : c.phase ≡ command_stream → c.sr_bits < 2 ^ c.sr_len
  pub reads : c.phase ≡ read_word_out → c.read_bit_idx ≤ 16
  pub writes : c.phase ≡ write_word_in → c.write_shift ≤ 15
  pub addr : c.word_addr < 256
  pub accum : c.write_accum < 65536

pub record WellFormed (c : Chip) : Type 0 where
  pub memory : IsMemory c.mem
  pub control : InStep c

write_word_le-IsMemory : {mem : List ℕ} (a d : ℕ) → IsMemory mem → IsMemory (write_word_le mem a d)
unfolding write_word_le
write_word_le-IsMemory {mem} a d m = record {
  size = length-set _ _ _ ∙ length-set mem _ _ ∙ m.size;
  bytes = All-set IsByte _ _ _ (All-set IsByte mem _ _ m.bytes (omega arith)) (omega arith);
}

erase_words-IsMemory :
    (left w : ℕ) (mem : List ℕ) → IsMemory mem → IsMemory (erase_words left w mem).0
unfolding erase_words
erase_words-IsMemory zero w mem m = m
erase_words-IsMemory (suc left) w mem m =
    erase_words-IsMemory left (w + 1) _ (write_word_le-IsMemory (w % 256) 0xffff m)

pub power_on-WellFormed : WellFormed power_on
unfolding power_on
power_on-WellFormed = record {
  memory = record {
    size = length-replicate {A = ℕ} 512 0xff;
    bytes = All-replicate IsByte 512 0xff (omega arith);
  };
  control = ground arith;
}

set_chip_select-WellFormed :
    (b : Bool) {c : Chip} → WellFormed c → WellFormed (set_chip_select b c).0
unfolding set_chip_select
set_chip_select-WellFormed true {c} v = ground arith
set_chip_select-WellFormed false {c} v = ground arith

pow_table : all_below 12 (λ n. leb (2 ^ n) 2048) ≡ true
unfolding all_below
pow_table = refl

pub pow_small : (len : ℕ) → len ≤ 11 → 2 ^ len ≤ 2048
pow_small len h =
    leb→le _ _ (all_below_sound 12 (λ n. leb (2 ^ n) 2048) len pow_table (omega arith))

-- A new bit keeps the start bit on top.
pub command_shift :
    (len sr : ℕ) (di : Bool)
    → len ≤ 11
    → 2 ^ len ≤ sr * 2
    → sr < 2 ^ len
    → let sr' = u32 (bit_or (sr * 2) (bit_of di)) in
      (2 ^ suc len ≤ sr' * 2) × (sr' < 2 ^ suc len) × (sr' ≡ sr * 2 + bit_of di)
command_shift len sr true few top below =
    omega (arith, pow_small len few, pow-suc 2 len, bit_or_shift_in sr 1 (omega arith))
command_shift len sr false few top below =
    omega (arith, pow_small len few, pow-suc 2 len, bit_or_shift_in sr 0 (omega arith))

execute_opcode-WellFormed :
    (op addr : ℕ) (c : Chip)
    → addr < 256
    → c.cs ≡ true
    → IsMemory c.mem
    → c.write_accum < 65536
    → c.word_addr < 256
    → WellFormed (execute_opcode op addr c).0
unfolding execute_opcode begin_read_output
execute_opcode-WellFormed op addr c small on m acc a =
    ground (arith, write_word_le-IsMemory {mem = c.mem} addr 0xffff m)

perform_erase_all_words-WellFormed :
    (c : Chip)
    → c.cs ≡ true
    → IsMemory c.mem
    → c.write_accum < 65536
    → c.word_addr < 256
    → WellFormed (record (perform_erase_all_words c).0 { phase = wait_start; data_out = true })
unfolding perform_erase_all_words
perform_erase_all_words-WellFormed c on m acc a = ground (arith, erase_words-IsMemory 256 0 c.mem m)

execute-WellFormed :
    (body : ℕ) (c : Chip)
    → c.cs ≡ true
    → IsMemory c.mem
    → c.write_accum < 65536
    → WellFormed (execute body c).0
unfolding execute
execute-WellFormed body c on m acc = ground (
  arith,
  execute_opcode-WellFormed (body / 256 % 8 % 256) (body % 256 % 256)
      (record c { word_addr = body % 256 % 256 }),
  perform_erase_all_words-WellFormed (record c { word_addr = body % 256 % 256 }),
)

command_bit-WellFormed :
    (di : Bool) {c : Chip}
    → WellFormed c
    → c.cs ≡ true
    → c.phase ≡ command_stream
    → WellFormed (command_bit di c).0
unfolding command_bit
command_bit-WellFormed di {c} v on p = ground (
  arith,
  command_shift c.sr_len c.sr_bits di,
  execute-WellFormed (u16 (u32 (bit_or (c.sr_bits * 2) (bit_of di)) / 2 % 2 ^ 11)) (record c {
    sr_bits = u32 (bit_or (c.sr_bits * 2) (bit_of di));
    sr_len = u32 (c.sr_len + 1);
  }),
)

read_bit-WellFormed :
    {c : Chip} → WellFormed c → c.cs ≡ true → c.phase ≡ read_word_out → WellFormed (read_bit c).0
unfolding read_bit
read_bit-WellFormed v on p = ground arith

write_bit-WellFormed :
    (di : Bool) {c : Chip}
    → WellFormed c
    → c.cs ≡ true
    → c.phase ≡ write_word_in
    → WellFormed (write_bit di c).0
unfolding write_bit finish_write_word
write_bit-WellFormed di {c} v on p = ground (
  arith,
  write_word_le-IsMemory {mem = c.mem} c.word_addr (u16 (bit_or (c.write_accum * 2) (bit_of di))),
)

rising_edge-WellFormed :
    (di : Bool) {c : Chip} → WellFormed c → c.cs ≡ true → WellFormed (rising_edge c.phase di c).0
unfolding rising_edge start_bit
rising_edge-WellFormed di {c} v on =
    ground (
      arith,
      command_bit-WellFormed di v on,
      read_bit-WellFormed v on,
      write_bit-WellFormed di v on,
    )

notify_port_b_clock-WellFormed :
    (prev_b new_b : ℕ) (di : Bool) {c : Chip}
    → WellFormed c
    → WellFormed (notify_port_b_clock prev_b new_b di c).0
unfolding notify_port_b_clock
notify_port_b_clock-WellFormed prev_b new_b di {c} v =
    let v' : WellFormed (record c { prev_sk = tests new_b 0x80 }) = ground arith in
    ground (arith, rising_edge-WellFormed di v')

pub apply-WellFormed : (i : Input) {c : Chip} → WellFormed c → WellFormed (apply i c).0
unfolding apply
apply-WellFormed (select b) v = set_chip_select-WellFormed b v
apply-WellFormed (port_b prev_b new_b di) v = notify_port_b_clock-WellFormed prev_b new_b di v

run-WellFormed_from : (is : List Input) {c : Chip} → WellFormed c → WellFormed (run is c).0
unfolding run
run-WellFormed_from [] v = v
run-WellFormed_from (i ∷ is) v = run-WellFormed_from is (apply-WellFormed i v)

-- Whatever the host puts on the lines from power-on, the array keeps 512 bytes, the address and
-- the accumulator keep their widths, and the counters stay within the phase that they belong to;
-- in the command phase the start bit is the top one of the bits shifted in.
pub run-WellFormed : (is : List Input) → WellFormed (run is power_on).0
run-WellFormed is = run-WellFormed_from is power_on-WellFormed
