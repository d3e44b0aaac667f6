-- ===== src/Am8048/Flags.antt =====
-- ADD and ADDC against the carries out of the two nibbles.
use coin_line_emu.Base.Bits.{tests-pow, tests-bit_and, tests-bit_or, all_below, all_below_sound}
use coin_line_emu.Base.{
  ==→eq, ℕ, ◌+◌, ◌-◌, ◌/◌, ◌%◌, ◌^◌, ◌<◌, ◌≡◌, refl, ap, ◌∙◌, Bool, true, false, not, arith,
  bit_and, bit_or, ltb, ◌==◌, u8, u16, tests, is_odd,
}
use coin_line_emu.Am8048.{Cpu, put_flag, aux_carry, apply_alu_flags_add}
use coin_line_emu.Am8048.Execute.{add_to_a}

-- Whether a set bit of two flags is the flag that was put there last.
tests-put_flag :
    (on : Bool) (k mask psw : ℕ)
    → tests mask (2 ^ k) ≡ true
    → tests (0xff - mask) (2 ^ k) ≡ false
    → tests (put_flag on mask psw) (2 ^ k) ≡ on
tests-put_flag on k mask psw set clear =
    ground (arith, tests-bit_or k psw mask, tests-bit_and k psw (0xff - mask))

tests-put_flag_other :
    (on : Bool) (k mask psw : ℕ)
    → tests mask (2 ^ k) ≡ false
    → tests (0xff - mask) (2 ^ k) ≡ true
    → tests (put_flag on mask psw) (2 ^ k) ≡ tests psw (2 ^ k)
tests-put_flag_other on k mask psw set clear =
    ground (arith, tests-bit_or k psw mask, tests-bit_and k psw (0xff - mask))

-- The flags stand in the upper two bits.
put_flag-table :
    (ac cy : Bool)
    → all_below 256 (λ y. put_flag ac 0x40 (put_flag cy 0x80 y) % 64 == y % 64) ≡ true
unfolding all_below
put_flag-table true true = refl
put_flag-table true false = refl
put_flag-table false true = refl
put_flag-table false false = refl

put_flag-low :
    (ac cy : Bool) (x : ℕ) → x < 256 → put_flag ac 0x40 (put_flag cy 0x80 x) % 64 ≡ x % 64
put_flag-low ac cy x h = ==→eq (put_flag ac 0x40 (put_flag cy 0x80 x) % 64) (x % 64) (
    all_below_sound 256 (λ y. put_flag ac 0x40 (put_flag cy 0x80 y) % 64 == y % 64) x
      (put_flag-table ac cy) h)

-- The bit of the complement.
odd-complement : (res : ℕ) → res < 65536 → is_odd ((0xffffffff - res) / 8) ≡ not (is_odd (res / 8))
odd-complement res h = ground arith

aux_carry_lem :
    (a b res : ℕ)
    → res < 65536
    → res % 16 ≡ (a + b) % 16
    → aux_carry a b res ≡ ltb 15 (a % 16 + b % 16)
unfolding aux_carry
aux_carry_lem a b res bound same =
    let keep = 0xffffffff - res in
    ground (
      arith,
      tests-bit_or 3 (bit_or (bit_and a b) (bit_and a keep)) (bit_and b keep),
      tests-bit_or 3 (bit_and a b) (bit_and a keep),
      tests-bit_and 3 a b,
      tests-bit_and 3 a keep,
      tests-bit_and 3 b keep,
      tests-pow a 3,
      tests-pow b 3,
      tests-pow keep 3,
      odd-complement res bound,
    )

-- The sum of the accumulator, an operand and a carry in: the accumulator gets it modulo 256, the
-- carry flag is its carry out of the byte, and the auxiliary flag is the carry out of the low
-- nibble of the accumulator plus the low nibble of operand and carry in, taken together; the other
-- bits of the status word stay.
pub add_to_a_lem :
    (arg c_in : ℕ) (c : Cpu)
    → c.a < 256
    → c.psw < 256
    → arg < 256
    → c_in < 2
    → let d = add_to_a arg c_in c in
      (d.a ≡ (c.a + arg + c_in) % 256)
      × (tests d.psw 0x80 ≡ ltb 255 (c.a + arg + c_in))
      × (tests d.psw 0x40 ≡ ltb 15 (c.a % 16 + (arg + c_in) % 16))
      × (d.psw % 64 ≡ c.psw % 64)
unfolding add_to_a apply_alu_flags_add
add_to_a_lem arg c_in c ha hp hb hc =
    let res = u16 (c.a + arg + c_in) in
    let b = u8 (arg + c_in) in
    let cy = tests res 0x100 in
    let ac = aux_carry c.a b res in
    let first = put_flag cy 0x80 c.psw in
    let nibble : b % 16 ≡ (arg + c_in) % 16 = omega arith in
    let carried : cy ≡ ltb 255 (c.a + arg + c_in) = ground (arith, tests-pow res 8) in
    (
      omega arith,
      tests-put_flag_other ac 7 0x40 first refl refl
          ∙ tests-put_flag cy 7 0x80 c.psw refl refl
          ∙ carried,
      tests-put_flag ac 6 0x40 first refl refl
          ∙ aux_carry_lem c.a b res (omega arith) (omega arith)
          ∙ ap (λ (n : ℕ). ltb 15 (c.a % 16 + n)) nibble,
      put_flag-low ac cy c.psw hp,
    )
