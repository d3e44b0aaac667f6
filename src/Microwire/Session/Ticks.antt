-- ===== src/Microwire/Session/Ticks.antt =====
-- One clock pulse, and the bits of a field clocked in by many.
use mathlib.Core.List.{append_assoc}
use coin_line_emu.Base.{
  ℕ, zero, suc, ◌+◌, ◌*◌, ◌/◌, ◌%◌, ◌^◌, ◌≤◌, ◌<◌, ◌≡◌, refl, Bool, true, false, List, [], ◌∷◌,
  ◌++◌, arith, length, length-append, bit_or, bit_of, is_odd, u16, u32,
}
use native.Mathlib.Nat.{mod-eq_of_lt, pow-suc}
use coin_line_emu.Base.Bits.{bit_or_shift_in, double-pow}
use coin_line_emu.Microwire.{
  Phase, Chip, Call, command_stream, write_word_in, start_bit, command_bit, execute, execute_opcode,
  begin_read_output, perform_erase_all_words, finish_write_word, read_bit, write_bit, rising_edge,
  notify_port_b_clock,
}
use coin_line_emu.Microwire.Protocol.{port_b, apply, run, pulses, bits}

-- A pulse on a selected chip: the rising edge is served, the falling edge only recorded.
unfoldable pub tick : Bool → Chip → Chip × List Call
tick di c =
    let (c', calls) = rising_edge c.phase di (record c { prev_sk = true }) in
    (record c' { prev_sk = false }, calls)

unfoldable pub ticks : List Bool → Chip → Chip × List Call
ticks [] c = (c, [])
ticks (b ∷ bs) c =
    let (c', calls) = tick b c in let (last, more) = ticks bs c' in (last, calls ++ more)

pub ticks-append :
    (bs ds : List Bool) (c : Chip)
    → ticks (bs ++ ds) c
      ≡ ((ticks ds (ticks bs c).0).0, (ticks bs c).1 ++ (ticks ds (ticks bs c).0).1)
unfolding ticks
ticks-append [] ds c = refl
ticks-append (b ∷ bs) ds c = ground (
  arith,
  ticks-append bs ds (tick b c).0,
  append_assoc (tick b c).1 (ticks bs (tick b c).0).1 (ticks ds (ticks bs (tick b c).0).0).1,
)

execute_opcode-cs : (op addr : ℕ) (c : Chip) → (execute_opcode op addr c).0.cs ≡ c.cs
unfolding execute_opcode begin_read_output
execute_opcode-cs op addr c = ground arith

execute-cs : (body : ℕ) (c : Chip) → (execute body c).0.cs ≡ c.cs
unfolding execute perform_erase_all_words
execute-cs body c = ground (
  arith,
  execute_opcode-cs (body / 256 % 8 % 256) (body % 256 % 256)
      (record c { word_addr = body % 256 % 256 }),
)

command_bit-cs : (di : Bool) (c : Chip) → (command_bit di c).0.cs ≡ c.cs
unfolding command_bit
command_bit-cs di c = ground (
  arith,
  execute-cs (u16 (u32 (bit_or (c.sr_bits * 2) (bit_of di)) / 2 % 2 ^ 11)) (record c {
    sr_bits = u32 (bit_or (c.sr_bits * 2) (bit_of di));
    sr_len = u32 (c.sr_len + 1);
  }),
)

rising_edge-cs : (p : Phase) (di : Bool) (c : Chip) → (rising_edge p di c).0.cs ≡ c.cs
unfolding rising_edge start_bit read_bit write_bit finish_write_word
rising_edge-cs p di c = ground (arith, command_bit-cs di c)

tick-cs : (di : Bool) (c : Chip) → (tick di c).0.cs ≡ c.cs
unfolding tick
tick-cs di c = rising_edge-cs c.phase di (record c { prev_sk = true })

-- The falling edge of a pulse is recorded and serves nothing.
falling_edge :
    (di : Bool) (c : Chip) → apply (port_b 0x80 0x00 di) c ≡ (record c { prev_sk = false }, [])
unfolding apply notify_port_b_clock
falling_edge di c = ground arith

served_edge :
    (di : Bool) (c : Chip)
    → c.cs ≡ true
    → apply (port_b 0x00 0x80 di) c ≡ rising_edge c.phase di (record c { prev_sk = true })
unfolding apply notify_port_b_clock
served_edge di c on = ground arith

-- A selected chip serves the pulses one by one.
pub run-pulses : (bs : List Bool) (c : Chip) → c.cs ≡ true → run (pulses bs) c ≡ ticks bs c
unfolding run ticks tick
run-pulses [] c on = refl
run-pulses (b ∷ bs) c on = ground (
  arith,
  served_edge b c,
  falling_edge b (rising_edge c.phase b (record c { prev_sk = true })).0,
  rising_edge-cs c.phase b (record c { prev_sk = true }),
  run-pulses bs
      (record (rising_edge c.phase b (record c { prev_sk = true })).0 { prev_sk = false }),
)

-- The bits taken in one after another by a register below `m`.
unfoldable pub shift_in : ℕ → ℕ → List Bool → ℕ
shift_in m acc [] = acc
shift_in m acc (b ∷ bs) = shift_in m (bit_or (acc * 2) (bit_of b) % m) bs

shift_in-append :
    (m acc : ℕ) (bs ds : List Bool) → shift_in m acc (bs ++ ds) ≡ shift_in m (shift_in m acc bs) ds
unfolding shift_in
shift_in-append m acc [] ds = refl
shift_in-append m acc (b ∷ bs) ds = shift_in-append m (bit_or (acc * 2) (bit_of b) % m) bs ds

-- The last of `n + 1` bits, behind the others.
shift_in_last :
    (m acc n v x : ℕ)
    → (acc + 1) * 2 ^ suc n ≤ m
    → v < 2 ^ suc n
    → x ≡ acc * 2 ^ n + v / 2
    → bit_or (x * 2) (bit_of (is_odd v)) % m ≡ acc * 2 ^ suc n + v
shift_in_last m acc n v x fits small e =
    let twice : acc * 2 ^ suc n ≡ 2 * (acc * 2 ^ n) = double-pow acc n in
    let wide : (acc + 1) * 2 ^ suc n ≡ 2 * ((acc + 1) * 2 ^ n) = double-pow (acc + 1) n in
    let sum : x * 2 + bit_of (is_odd v) ≡ acc * 2 ^ suc n + v = ground arith in
    rw (bit_or_shift_in x (bit_of (is_odd v)) (ground arith), sum)
      (mod-eq_of_lt (omega (arith, twice, wide)))

-- Clocking in the `n` bits of a number appends them to the register.
pub shift_in-bits :
    (m acc n v : ℕ)
    → (acc + 1) * 2 ^ n ≤ m
    → v < 2 ^ n
    → shift_in m acc (bits n v) ≡ acc * 2 ^ n + v
unfolding shift_in
shift_in-bits m acc zero v fits small = omega arith
shift_in-bits m acc (suc n) v fits small = rw (shift_in-append m acc (bits n (v / 2))) (
    shift_in_last m acc n v (shift_in m acc (bits n (v / 2))) fits small (
      shift_in-bits m acc n (v / 2) (omega (arith, double-pow (acc + 1) n))
        (omega (arith, pow-suc 2 n))))

pub length-bits : (n v : ℕ) → length (bits n v) ≡ n
length-bits zero v = refl
length-bits (suc n) v =
    omega (arith, length-append (bits n (v / 2)) (is_odd v ∷ []), length-bits n (v / 2))

-- Bits that do not complete a command only fill the shift register.
pub ticks_command :
    (bs : List Bool) (c : Chip)
    → c.phase ≡ command_stream
    → c.prev_sk ≡ false
    → c.sr_len + length bs ≤ 11
    → ticks bs c
      ≡ (record c { sr_bits = shift_in (2 ^ 32) c.sr_bits bs; sr_len = c.sr_len + length bs }, [])
unfolding ticks tick rising_edge command_bit shift_in
ticks_command [] c p sk few = ground arith
ticks_command (b ∷ bs) c p sk few = ground (
  arith,
  ticks_command bs (record c {
    sr_bits = u32 (bit_or (c.sr_bits * 2) (bit_of b));
    sr_len = u32 (c.sr_len + 1);
    prev_sk = false;
  }),
)

-- Bits that do not complete a word only fill the accumulator.
pub ticks_write :
    (bs : List Bool) (c : Chip)
    → c.phase ≡ write_word_in
    → c.prev_sk ≡ false
    → c.write_shift + length bs ≤ 15
    → ticks bs c ≡ (
      record c {
        write_accum = shift_in (2 ^ 16) c.write_accum bs;
        write_shift = c.write_shift + length bs;
      },
      [],
    )
unfolding ticks tick rising_edge write_bit shift_in
ticks_write [] c p sk few = ground arith
ticks_write (b ∷ bs) c p sk few = ground (
  arith,
  ticks_write bs (record c {
    write_accum = u16 (bit_or (c.write_accum * 2) (bit_of b));
    write_shift = u32 (c.write_shift + 1);
    prev_sk = false;
  }),
)
