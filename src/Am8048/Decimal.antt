-- ===== src/Am8048/Decimal.antt =====
-- DA behind ADD or ADDC, against the addition of two-digit decimal numbers.
use coin_line_emu.Base.Bits.{tests-bit_or}
use coin_line_emu.Base.{ℕ, ◌+◌, ◌*◌, ◌/◌, ◌%◌, ◌<◌, ◌≡◌, arith, ltb, tests}
use coin_line_emu.Am8048.{Cpu}
use coin_line_emu.Am8048.Execute.{add_to_a, decimal_adjust}
use coin_line_emu.Am8048.Flags.{add_to_a_lem}

-- Two decimal digits in a byte.
abbrev pub IsDecimal : ℕ → Type 0
IsDecimal n = (n / 16 < 10) × (n % 16 < 10)

abbrev pub decimal_value : ℕ → ℕ
decimal_value n = n / 16 * 10 + n % 16

-- DA behind the sum of two decimal bytes and a carry in leaves the decimal sum modulo 100 in the
-- accumulator, as two digits, and the carry flag says whether the sum is 100 or more.
pub decimal_adjust-add_to_a :
    (arg c_in : ℕ) (c : Cpu)
    → c.psw < 256
    → IsDecimal c.a
    → IsDecimal arg
    → c_in < 2
    → let d = decimal_adjust (add_to_a arg c_in c) in
      let total = decimal_value c.a + decimal_value arg + c_in in
      IsDecimal d.a × (decimal_value d.a ≡ total % 100) × (tests d.psw 0x80 ≡ ltb 99 total)
unfolding decimal_adjust
decimal_adjust-add_to_a arg c_in c hp (hah, hal) (hbh, hbl) hc =
    let s = add_to_a arg c_in c in
    let (sum, carry, aux, kept) = add_to_a_lem arg c_in c (omega arith) hp (omega arith) hc in
    let set = tests-bit_or 7 s.psw 0x80 in
    (
      (ground (arith, sum, carry, aux), ground (arith, sum, carry, aux)),
      ground (arith, sum, carry, aux),
      ground (arith, sum, carry, aux, set),
    )
