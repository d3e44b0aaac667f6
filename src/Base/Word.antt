-- ===== src/Base/Word.antt =====
-- The fixed-width unsigned integers of C++ as natural numbers that wrap at each width.
use Prim.Native.Nat.{ℕ, ◌%◌, bit_and}
use mathlib.Core.Bool.{Bool, true, false, not}
use coin_line_emu.Base.Tests.{◌==◌}

abbrev pub u8 : ℕ → ℕ
u8 n = n % 256

abbrev pub u16 : ℕ → ℕ
u16 n = n % 65536

abbrev pub u32 : ℕ → ℕ
u32 n = n % 4294967296

abbrev pub u64 : ℕ → ℕ
u64 n = n % 18446744073709551616

-- `true` is 1.
abbrev pub bit_of : Bool → ℕ
bit_of true = 1
bit_of false = 0

-- `(x & mask) != 0`.
abbrev pub tests : ℕ → ℕ → Bool
tests x mask = not (bit_and x mask == 0)

-- The lowest bit of a number, as a Boolean.
abbrev pub is_odd : ℕ → Bool
is_odd x = x % 2 == 1
