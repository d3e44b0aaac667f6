-- ===== src/Base/Bounds.antt =====
-- How large `bit_or`, `bit_and` and `bit_xor` get.
use native.Mathlib.Nat.{pow-suc}
use Prim.Native.Nat.{ℕ, zero, suc, ◌/◌, ◌^◌, ◌<◌, bit_or, bit_and, bit_xor}
use mathlib.Core.Path.{◌≡◌, refl}
use mathlib.Core.Bool.{true}
use native.Mathlib.Omega.{arith}
use coin_line_emu.Base.Tests.{ltb}
use coin_line_emu.Base.Bits.{
  bit_or_step, bit_and_step, zero-bit_or, zero-bit_and, all_below, all_below_sound,
}

pub bit_or-bound : (k x y : ℕ) → x < 2 ^ k → y < 2 ^ k → bit_or x y < 2 ^ k
bit_or-bound zero zero y hx hy = omega (arith, zero-bit_or y)
bit_or-bound zero (suc x) y hx hy = absurd (omega arith)
bit_or-bound (suc k) x y hx hy = omega (
  arith,
  pow-suc 2 k,
  bit_or_step x y,
  bit_or-bound k (x / 2) (y / 2) (omega (arith, pow-suc 2 k)) (omega (arith, pow-suc 2 k)),
)

pub bit_and-bound : (k x y : ℕ) → x < 2 ^ k → bit_and x y < 2 ^ k
bit_and-bound zero zero y hx = omega (arith, zero-bit_and y)
bit_and-bound zero (suc x) y hx = absurd (omega arith)
bit_and-bound (suc k) x y hx = omega (
  arith,
  pow-suc 2 k,
  bit_and_step x y,
  bit_and-bound k (x / 2) (y / 2) (omega (arith, pow-suc 2 k)),
)

-- A byte with some of its bits changed.
below_table :
    (m x : ℕ) → all_below 256 (λ y. ltb (bit_xor y m) 256) ≡ true → x < 256 → bit_xor x m < 256
below_table m x table h =
    let checked = all_below_sound 256 (λ y. ltb (bit_xor y m) 256) x table h in
    ground (arith, checked)

pub bit_xor_all : (x : ℕ) → x < 256 → bit_xor x 0xff < 256
unfolding all_below
bit_xor_all x h = below_table 0xff x refl h

pub bit_xor_carry : (x : ℕ) → x < 256 → bit_xor x 0x80 < 256
unfolding all_below
bit_xor_carry x h = below_table 0x80 x refl h

pub bit_xor_flag : (x : ℕ) → x < 256 → bit_xor x 0x20 < 256
unfolding all_below
bit_xor_flag x h = below_table 0x20 x refl h

pub bit_xor_lowest : (x : ℕ) → x < 2 → bit_xor x 1 < 2
bit_xor_lowest zero h = omega arith
bit_xor_lowest (suc zero) h = omega arith
bit_xor_lowest (suc (suc x)) h = absurd (omega arith)
